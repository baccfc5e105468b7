-- ===== src/Store/Sent/Again.antt =====
-- internal/store/store.go: a client that sends again, its answer lost.
use nox_app.Base.{
  ℕ, String, ◌≡◌, refl, ap, sym, ◌∙◌, subst, true, Option, none, some, [], ◌∷◌, inl, inr, arith,
  same_refl, Option-cases,
}
use nox_app.Sql.{select}
use nox_app.Sql.Laws.{select-update, select-append}
use nox_app.Db.{Db, Message, Attachment}
use nox_app.Tx.{ok}
use nox_app.Store.Identity.{Entropy, Identity}
use nox_app.Store.Chats.{Made}
use nox_app.Store.Files.{is_file}
use nox_app.Store.Messages.{
  message_row, file_of, send_message, attachment_for, message_by_client_id, is_sent, joined_file,
  attached, replayed_message,
}
use nox_app.Store.Sent.{IsRecorded, bound_files, after_send}

-- The file that a message brought is joined to it again.
joined_again :
    (att : Option Attachment) (file_id message_id : String) (db db' : Db)
    → attachment_for file_id db ≡ ok (att, db)
    → db'.files ≡ bound_files att file_id message_id db.files
    → attached (joined_file (file_of att file_id) db') ≡ att
unfolding attachment_for
joined_again none file_id message_id db db' a e = refl
joined_again (some f) file_id message_id db db' a e =
    let seen =
      select-update (is_file file_id) (is_file file_id)
        (λ f. record f { message_id = some message_id }) db.files (λ x. refl) in
    elim (Option-cases (select (is_file file_id) db.files)) [
      | inl h ↦ absurd (ground arith)
      | inr (row, h) ↦
          let same_att : row.attachment ≡ f = ground arith in rw (e, seen, h) (ground arith)
    ]

module _ (m : Made Message) (author client file_id : String) (db db' : Db) where
  found_again :
      IsRecorded m author client file_id db db'
      → select (is_sent author client) db.messages ≡ none
      → message_by_client_id author client db' ≡ some m.value
  unfolding message_by_client_id select
  found_again r unsent =
      let row = message_row m.value (file_of r.att file_id) in
      let read = select-append (is_sent author client) db.messages (row ∷ []) in
      let join = joined_again r.att file_id m.value.message_id db db' r.found_file r.files in
      let mine : is_sent author client row ≡ true =
        rw (r.by_author, r.by_client, same_refl author, same_refl client) refl in
      let there : select (is_sent author client) db'.messages ≡ some row =
        rw (r.messages, read, unsent, mine) refl in
      rw there (ap (λ a. some (record m.value { attachment = a })) (join ∙ sym r.brought))

replayed_again :
    (text_body : String → Option String) (rnd : Entropy) (chat_id client : String)
    (author : Identity) (body file_id : String) (now : ℕ) (v : Message) (db : Db)
    → message_by_client_id author.user_id client db ≡ some v
    → send_message text_body rnd chat_id client author body file_id now db
      ≡ ok (replayed_message v, db)
unfolding send_message
replayed_again text_body rnd chat_id client author body file_id now v db e = rw e refl

module _ (text_body : String → Option String) (rnd rnd' : Entropy)
    (chat_id chat_id' client : String) (author author' : Identity)
    (body body' file_id file_id' : String) (now now' : ℕ) where
  -- After a send that succeeds, a send by the same person with the same send key, whatever else it
  -- says, gives the first message, its attachment included, without an event and marked as not
  -- made now, and writes nothing.
  pub send_message_again :
      (db db' : Db) (m : Made Message)
      → author'.user_id ≡ author.user_id
      → send_message text_body rnd chat_id client author body file_id now db ≡ ok (m, db')
      → send_message text_body rnd' chat_id' client author' body' file_id' now' db'
        ≡ ok (replayed_message m.value, db')
  unfolding message_by_client_id send_message
  send_message_again db db' m who e =
      let found : message_by_client_id author.user_id client db' ≡ some m.value =
        elim (Option-cases (select (is_sent author.user_id client) db.messages)) [
          | inl none_yet ↦
              found_again m author.user_id client file_id db db'
                (after_send text_body rnd chat_id client author body file_id now db db' m
                  (rw none_yet refl) e)
                none_yet
          | inr (r, there) ↦ ground arith
        ] in
      replayed_again text_body rnd' chat_id' client author' body' file_id' now' m.value db'
        (subst (λ u. message_by_client_id u client db' ≡ some m.value) (sym who) found)
