-- ===== src/Store/Sent/Taken.antt =====
-- internal/store/store.go: a file that a message has.
use nox_app.Base.{
  ℕ, ◌<◌, String, ◌≡◌, refl, true, false, Option, none, some, inl, inr, arith, same, Option-cases,
}
use nox_app.Sql.{select, count}
use nox_app.Sql.Laws.{select-update, select-meets}
use nox_app.Db.{Db, Message, Attachment}
use nox_app.Tx.{ok, err, file_taken}
use nox_app.Store.Identity.{Entropy, Identity}
use nox_app.Store.Chats.{Made, is_chat}
use nox_app.Store.Files.{is_file}
use nox_app.Store.Messages.{send_message, send_new, attachment_for, message_by_client_id}
use nox_app.Store.Sent.{bound_files, after_send}

refused :
    (att : Option Attachment) (file_id message_id : String) (db db' : Db)
    → same file_id "" ≡ false
    → attachment_for file_id db ≡ ok (att, db)
    → db'.files ≡ bound_files att file_id message_id db.files
    → attachment_for file_id db' ≡ err file_taken
unfolding attachment_for
refused none file_id message_id db db' named a e =
    elim (Option-cases (select (is_file file_id) db.files)) [
      | inl h ↦ absurd (ground arith)
      | inr (row, h) ↦ absurd (ground arith)
    ]
refused (some f) file_id message_id db db' named a e =
    let seen =
      select-update (is_file file_id) (is_file file_id)
        (λ f. record f { message_id = some message_id }) db.files (λ x. refl) in
    elim (Option-cases (select (is_file file_id) db.files)) [
      | inl h ↦ absurd (ground arith)
      | inr (row, h) ↦
          let up : row.uploaded ≡ true = ground arith in
          let met = select-meets (is_file file_id) db.files row h in
          let bound : select (is_file file_id) db'.files
              ≡ some (record row { message_id = some message_id }) =
            rw (e, seen, h, met) refl in
          rw bound (ground arith)
    ]

module _ (text_body : String → Option String) (rnd rnd' : Entropy)
    (chat_id chat_id' client client' : String) (author author' : Identity)
    (body body' file_id : String) (now now' : ℕ) where
  -- After a send with a file that succeeds and whose key no message had, a send of that file with a
  -- key that no message has, by whomever and into any chat that is there, is refused: the file is
  -- taken.
  pub send_message_taken :
      (db db' : Db) (m : Made Message)
      → same file_id "" ≡ false
      → message_by_client_id author.user_id client db ≡ none
      → send_message text_body rnd chat_id client author body file_id now db ≡ ok (m, db')
      → message_by_client_id author'.user_id client' db' ≡ none
      → 0 < count (is_chat chat_id') db'.chats
      → send_message text_body rnd' chat_id' client' author' body' file_id now' db' ≡ err file_taken
  unfolding send_message send_new
  send_message_taken db db' m named unsent e unsent' there =
      let r = after_send text_body rnd chat_id client author body file_id now db db' m unsent e in
      let no = refused r.att file_id m.value.message_id db db' named r.found_file r.files in
      ground arith
