-- ===== src/Store/Sent.antt =====
-- internal/store/store.go: what SendMessage leaves behind.
pub mod Again
pub mod Announced
pub mod Taken
use nox_app.Base.{
  ℕ, ◌+◌, String, ◌≡◌, refl, ap, sym, ◌∙◌, subst, Bool, true, false, not, ◌&&◌, Option, none, some,
  List, [], ◌∷◌, ◌++◌, inl, inr, arith, same, same_refl, Option-cases, ◌==◌, ltb,
}
use nox_app.Sql.{select, update, count}
use nox_app.Sql.Laws.{select-update, select-append}
use nox_app.Db.{
  Db, Message, MessageRow, Attachment, FileRow, EventRow, message_new, no_payload, of_message,
}
use nox_app.Tx.{Tx, Result, ok, pure, ◌>>=◌, ◌>>◌}
use nox_app.Tx.Within.{>>=-eq-ok}
use nox_app.Store.Identity.{Entropy, Identity}
use nox_app.Store.Journal.{insert_event, fill_event, is_event}
use nox_app.Store.Chats.{Made}
use nox_app.Store.Files.{is_file}
use nox_app.Store.Messages.{
  message_row, file_of, new_message, insert_message, bind_file, touch_chat, insert_new_message,
  send_new, send_message, attachment_for, message_by_client_id, is_sent,
}

-- The rows that a message's file binding leaves.
abbrev pub bound_files : Option Attachment → String → String → List FileRow → List FileRow
bound_files none file_id message_id fs = fs
bound_files (some a) file_id message_id fs =
    update (is_file file_id) (λ f. record f { message_id = some message_id }) fs

abbrev pub fresh_event : ℕ → EventRow
fresh_event seq = record { seq = seq; type = message_new; payload = no_payload }

-- The tables after a send that made a message.
pub record IsRecorded (m : Made Message) (author client file_id : String) (db db' : Db)
    : Type 0 where
  pub att : Option Attachment
  pub found_file : attachment_for file_id db ≡ ok (att, db)
  pub brought : m.value.attachment ≡ att
  pub seq : m.value.seq ≡ db.last_seq + 1
  pub announced :
      m.event
      ≡ some (record { seq = m.value.seq; type = message_new; payload = of_message m.value })
  pub messages : db'.messages ≡ db.messages ++ message_row m.value (file_of att file_id) ∷ []
  pub files : db'.files ≡ bound_files att file_id m.value.message_id db.files
  pub events :
      db'.events
      ≡ update
          (is_event m.value.seq)
          (λ e. record e { payload = of_message m.value })
          (db.events ++ fresh_event m.value.seq ∷ [])
  pub last_seq : db'.last_seq ≡ m.value.seq
  pub by_author : m.value.author_id ≡ author
  pub by_client : m.value.client_message_id ≡ client

attachment_still :
    (file_id : String) (db db' : Db) (att : Option Attachment)
    → attachment_for file_id db ≡ ok (att, db')
    → db' ≡ db
unfolding attachment_for
attachment_still file_id db db' att e = elim (Option-cases (select (is_file file_id) db.files)) [
  | inl h ↦ ground arith
  | inr (f, h) ↦ ground arith
]

module _ (text_body : String → Option String) (rnd : Entropy) (chat_id client : String)
    (author : Identity) (body file_id : String) (now : ℕ) where
  recorded :
      (att : Option Attachment) (db db' : Db) (m : Made Message)
      → attachment_for file_id db ≡ ok (att, db)
      → insert_new_message text_body rnd chat_id client author body file_id att now db ≡ ok (m, db')
      → IsRecorded m author.user_id client file_id db db'
  unfolding insert_new_message insert_event fill_event insert_message bind_file touch_chat
  recorded none db db' m a e = record {
    att = none;
    found_file = a;
    brought = ground arith;
    seq = ground arith;
    announced = ground arith;
    messages = ground arith;
    files = ground arith;
    events = ground arith;
    last_seq = ground arith;
    by_author = ground arith;
    by_client = ground arith;
  }
  recorded (some f) db db' m a e = record {
    att = some f;
    found_file = a;
    brought = ground arith;
    seq = ground arith;
    announced = ground arith;
    messages = ground arith;
    files = ground arith;
    events = ground arith;
    last_seq = ground arith;
    by_author = ground arith;
    by_client = ground arith;
  }

  -- A send whose key no message has leaves the tables so.
  pub after_send :
      (db db' : Db) (m : Made Message)
      → message_by_client_id author.user_id client db ≡ none
      → send_message text_body rnd chat_id client author body file_id now db ≡ ok (m, db')
      → IsRecorded m author.user_id client file_id db db'
  unfolding send_message send_new
  after_send db db' m unsent e =
      let (att, db₁, e₁, rest) =
        >>=-eq-ok (attachment_for file_id)
          (λ att. insert_new_message text_body rnd chat_id client author body file_id att now) db m
          db' (ground arith) in
      let still = attachment_still file_id db db₁ att e₁ in
      recorded att db db' m (subst (λ d. attachment_for file_id db ≡ ok (att, d)) still e₁) (
        subst
          (λ d.
            insert_new_message text_body rnd chat_id client author body file_id att now d
            ≡ ok (m, db'))
          still rest)
