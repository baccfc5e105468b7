-- ===== src/Store/Messages.antt =====
-- internal/store/store.go: messages. `text_body` is the parameter of preview_for.
use Prim.Native.String.{◌++◌ as text_append}
use nox_app.Base.{
  ℕ, ◌+◌, String, Bool, true, false, not, ◌&&◌, ◌||◌, Option, none, some, List, [], ◌∷◌, ◌++◌, ltb,
  ◌==◌, if◌then◌else◌, same, holds, is_none, map, reverse, take, length,
}
use nox_app.Sql.{select, update, count, where_rows, order_by}
use nox_app.Db.{Db, Message, MessageRow, FileRow, Attachment, message_new, no_payload, of_message}
use nox_app.Tx.{
  Tx, pure, fail, ◌>>=◌, ◌>>◌, read, write, require, chat_not_found, file_not_found, file_not_ready,
  file_taken, internal,
}
use nox_app.Store.Identity.{Entropy, Identity, is_user}
use nox_app.Store.Journal.{insert_event, fill_event}
use nox_app.Store.Chats.{Made, is_chat}
use nox_app.Store.Files.{is_file}
use nox_app.Store.Preview.{preview_for}

-- LEFT JOIN files.
abbrev pub joined_file : Option String → Db → Option FileRow
joined_file none db = none
joined_file (some id) db = select (is_file id) db.files

abbrev pub attached : Option FileRow → Option Attachment
attached none = none
attached (some f) = some f.attachment

abbrev pub scan_message : MessageRow → Db → Message
scan_message r db = record {
  message_id = r.message_id;
  seq = r.seq;
  chat_id = r.chat_id;
  author_id = r.author_id;
  author_label = r.author_label;
  client_message_id = r.client_message_id;
  sent_at = r.sent_at;
  body = r.body;
  attachment = attached (joined_file r.file_id db);
}

abbrev pub is_sent : String → String → MessageRow → Bool
is_sent author client r = same r.author_id author && same r.client_message_id client

abbrev pub scanned_message : Option MessageRow → Db → Option Message
scanned_message none db = none
scanned_message (some r) db = some (scan_message r db)

unfoldable pub message_by_client_id : String → String → Db → Option Message
message_by_client_id author client db =
    scanned_message (select (is_sent author client) db.messages) db

-- The checks on the file that a message brings along.
abbrev pub usable : Option FileRow → Tx (Option Attachment)
usable none = fail file_not_found
usable (some f) = do
  require f.uploaded file_not_ready
  require (is_none f.message_id) file_taken
  pure (some f.attachment)

unfoldable pub attachment_for : String → Tx (Option Attachment)
attachment_for file_id = do
  row ← read (λ db. select (is_file file_id) db.files)
  if same file_id "" then pure none else usable row

abbrev pub same_file : Option String → MessageRow → Bool
same_file none r = false
same_file (some id) r = holds r.file_id id

-- An INSERT into messages: refused for an id, a number, a send key or a file that a row has, and
-- for an author or a chat that is not there.
unfoldable pub insert_message : MessageRow → Tx (Unit {0})
insert_message row = do
  ids ← read (λ db. count (λ r. same r.message_id row.message_id || r.seq == row.seq) db.messages)
  keys ← read (λ db. count (is_sent row.author_id row.client_message_id) db.messages)
  files ← read (λ db. count (same_file row.file_id) db.messages)
  people ← read (λ db. count (is_user row.author_id) db.users)
  require (ids == 0 && keys == 0 && files == 0 && ltb 0 people) internal
  write (λ db. record db { messages = db.messages ++ row ∷ [] })

abbrev pub file_of : Option Attachment → String → Option String
file_of none file_id = none
file_of (some a) file_id = some file_id

abbrev pub name_of : Option Attachment → String
name_of none = ""
name_of (some a) = a.name

abbrev pub message_row : Message → Option String → MessageRow
message_row m file = record {
  message_id = m.message_id;
  seq = m.seq;
  chat_id = m.chat_id;
  author_id = m.author_id;
  author_label = m.author_label;
  client_message_id = m.client_message_id;
  sent_at = m.sent_at;
  body = m.body;
  file_id = file;
}

unfoldable pub bind_file : Option Attachment → String → String → Tx (Unit {0})
bind_file none file_id message_id = pure tt
bind_file (some a) file_id message_id = write λ db. record db {
  files = update (is_file file_id) (λ f. record f { message_id = some message_id }) db.files;
}

unfoldable pub touch_chat : String → ℕ → String → Tx (Unit {0})
touch_chat chat_id now preview = write λ db. record db {
  chats =
      update (is_chat chat_id)
        (λ c. record c {
          chat = record c.chat { last_activity_at = now; last_message_preview = preview };
        })
        db.chats;
}

abbrev pub replayed_message : Message → Made Message
replayed_message m = record { value = m; event = none; made = false }

abbrev pub new_message :
    Entropy → ℕ → String → String → Identity → String → Option Attachment → ℕ → Message
new_message rnd seq chat_id client author body att now = record {
  message_id = text_append "m_" rnd.id;
  seq = seq;
  chat_id = chat_id;
  author_id = author.user_id;
  author_label = author.label;
  client_message_id = client;
  sent_at = now;
  body = body;
  attachment = att;
}

module _ (text_body : String → Option String) where
  -- SendMessage once no message has the send key: from the number to the chat's activity.
  unfoldable pub insert_new_message :
      Entropy
      → String
      → String
      → Identity
      → String
      → String
      → Option Attachment
      → ℕ
      → Tx (Made Message)
  insert_new_message rnd chat_id client author body file_id att now = do
    seq ← insert_event message_new no_payload
    let msg = new_message rnd seq chat_id client author body att now
    fill_event seq (of_message msg)
    insert_message (message_row msg (file_of att file_id))
    bind_file att file_id msg.message_id
    touch_chat chat_id now (preview_for text_body body (name_of att))
    pure (record {
      value = msg;
      event = some (record { seq = seq; type = message_new; payload = of_message msg });
      made = true;
    })

  unfoldable pub send_new :
      Entropy → String → String → Identity → String → String → ℕ → Tx (Made Message)
  send_new rnd chat_id client author body file_id now = do
    chats ← read (λ db. count (is_chat chat_id) db.chats)
    require (not (chats == 0)) chat_not_found
    att ← attachment_for file_id
    insert_new_message rnd chat_id client author body file_id att now

  abbrev pub send_unless :
      Option Message
      → Entropy
      → String
      → String
      → Identity
      → String
      → String
      → ℕ
      → Tx (Made Message)
  send_unless (some m) rnd chat_id client author body file_id now = pure (replayed_message m)
  send_unless none rnd chat_id client author body file_id now =
      send_new rnd chat_id client author body file_id now

  unfoldable pub send_message :
      Entropy → String → String → Identity → String → String → ℕ → Tx (Made Message)
  send_message rnd chat_id client author body file_id now = do
    existing ← read (message_by_client_id author.user_id client)
    send_unless existing rnd chat_id client author body file_id now

abbrev pub later : MessageRow → MessageRow → Bool
later a b = ltb b.seq a.seq

-- A page read newest first, one row past its limit, and turned round.
unfoldable pub page_back {ℓ} : {A : Type ℓ} → ℕ → List A → List A × Bool
page_back limit rows = (reverse (take limit rows), ltb limit (length (take (limit + 1) rows)))

abbrev pub in_page : String → ℕ → MessageRow → Bool
in_page chat_id before r = same r.chat_id chat_id && (before == 0 || ltb r.seq before)

unfoldable pub list_messages : String → ℕ → ℕ → Db → List Message × Bool
list_messages chat_id before limit db = page_back limit (
    map (λ r. scan_message r db) (order_by later (where_rows (in_page chat_id before) db.messages)))
