-- ===== src/Store/Tests/Chat.antt =====
-- Chats and messages run on a concrete store.
use Prim.Native.String.{count as runes}
use nox_app.Base.{
  ◌≤◌, ◌+◌, ◌^◌, String, ◌≡◌, refl, true, false, Option, none, some, [], ◌∷◌, key_dec, ne_of_same,
  arith, same, ◌||◌, if◌then◌else◌,
}
use nox_app.Db.{
  Db, Message, ChatRow, FileRow, EventRow, chat_created, message_new, of_message, no_payload,
}
use nox_app.Tx.{Tx, ok, err, file_taken, name_taken}
use nox_app.Sql.{select, update, count}
use nox_app.Store.Identity.{Identity}
use nox_app.Store.Journal.{insert_event, fill_event, cursor, events_since}
use nox_app.Store.Chats.{
  Made, new_chat, create_chat, insert_new_chat, insert_chat, rename_chat, rename_found,
  page_of_list,
}
use nox_app.Store.Messages.{
  send_message, send_new, insert_new_message, attachment_for, insert_message, bind_file, touch_chat,
  message_by_client_id, replayed_message,
}
use nox_app.Store.Preview.{preview_for}
use nox_app.Store.Sent.Taken.{send_message_taken}
use nox_app.Store.Sent.Again.{send_message_again}
use nox_app.Store.Sent.Announced.{events_since-send_message}
use nox_app.Store.Names.{create_chat_again}
use nox_app.Store.Names.Own.{HasOwnNames, create_chat-HasOwnNames, rename_chat-HasOwnNames}
use nox_app.Store.Paging.{page_of_list_lem}
use nox_app.Store.Lengths.{count-preview_for}
use nox_app.Store.Tests.{draw, home, after}

abbrev room : ChatRow
room = record { chat = new_chat "c_1" "Room" "User0042" 1; name_ci = "room" }

abbrev photo : FileRow
photo = record {
  attachment = record {
    file_id = "f_1";
    name = "photo.jpg";
    size = 10;
    mime = "image/jpeg";
    expires_at = 99;
  };
  created_at = 1;
  uploaded = true;
  message_id = none;
}

-- The store with a chat, its event and an uploaded file.
abbrev chatty : Db
chatty = record home {
  chats = room ∷ [];
  files = photo ∷ [];
  events = record { seq = 1; type = chat_created; payload = no_payload } ∷ [];
  last_seq = 1;
}

abbrev author : Identity
author = record { user_id = "u_1"; label = "User0042"; created = false }

abbrev plain : String → Option String
plain s = some s

abbrev fold : String → String
fold s = s

abbrev send_photo : Tx (Made Message)
send_photo = send_message plain (draw "m") "c_1" "key" author "hello" "f_1" 50

abbrev sent_home : Db
sent_home = after send_photo chatty

abbrev sent : Message
sent = record {
  message_id = "m_m";
  seq = 2;
  chat_id = "c_1";
  author_id = "u_1";
  author_label = "User0042";
  client_message_id = "key";
  sent_at = 50;
  body = "hello";
  attachment = some photo.attachment;
}

abbrev sent_event : EventRow
sent_event = record { seq = 2; type = message_new; payload = of_message sent }

sent_run :
    send_photo chatty
    ≡ ok (record { value = sent; event = some sent_event; made = true }, sent_home)
unfolding key_dec select update count send_message send_new insert_new_message attachment_for
    insert_message bind_file touch_chat message_by_client_id insert_event fill_event
sent_run = refl

send_message_again_example :
    send_message plain (draw "n") "c_2" "key" author "other" "" 60 sent_home
    ≡ ok (replayed_message sent, sent_home)
send_message_again_example =
    send_message_again plain (draw "m") (draw "n") "c_1" "c_2" "key" author author "hello" "other"
      "f_1" "" 50 60 chatty sent_home _ refl sent_run

events_since-send_message_example :
    (e : EventRow) × (some sent_event ≡ some e) × (events_since (cursor chatty) sent_home ≡ e ∷ [])
unfolding key_dec select message_by_client_id
events_since-send_message_example =
    events_since-send_message plain (draw "m") "c_1" "key" author "hello" "f_1" 50 chatty sent_home
      _ (omega arith, tt) refl sent_run

-- A fold of two names: the one in capitals is the small one's.
abbrev lower : String → String
lower s = if same s "ROOM" || same s "Room" then "room" else s

chatty-HasOwnNames : HasOwnNames lower chatty
unfolding count key_dec
chatty-HasOwnNames = record {
  ids = λ id. ground arith;
  names = λ folded. ground arith;
  folds = (refl, tt);
}

create_chat-HasOwnNames_example :
    HasOwnNames lower (after (create_chat lower (draw "c") "c_2" "Other" "User0042" 70) chatty)
    × (create_chat lower
          (draw "d")
          "c_3"
          "ROOM"
          "User0042"
          80
          (after (create_chat lower (draw "c") "c_2" "Other" "User0042" 70) chatty)
        ≡ err name_taken)
unfolding key_dec select count create_chat insert_new_chat insert_chat insert_event
create_chat-HasOwnNames_example =
    create_chat-HasOwnNames lower (draw "c") (draw "d") "c_2" "c_3" "Other" "ROOM" "User0042"
      "User0042" 70 80 chatty
      (after (create_chat lower (draw "c") "c_2" "Other" "User0042" 70) chatty) _ refl
      chatty-HasOwnNames refl (omega arith)

rename_chat-HasOwnNames_example : HasOwnNames lower (after (rename_chat lower "c_1" "Hall") chatty)
unfolding key_dec select update count rename_chat rename_found insert_event
rename_chat-HasOwnNames_example =
    rename_chat-HasOwnNames lower "c_1" "Hall" chatty
      (after (rename_chat lower "c_1" "Hall") chatty) _ refl chatty-HasOwnNames

create_chat_again_example :
    create_chat fold
      (draw "d")
      "c_2"
      "Third"
      "User0042"
      80
      (after (create_chat fold (draw "c") "c_2" "Other" "User0042" 70) chatty)
    ≡ ok (
      record { value = new_chat "c_2" "Other" "User0042" 70; event = none; made = false },
      after (create_chat fold (draw "c") "c_2" "Other" "User0042" 70) chatty,
    )
unfolding key_dec select count create_chat insert_new_chat insert_chat insert_event
create_chat_again_example =
    create_chat_again fold (draw "c") (draw "d") "c_2" "Other" "Third" "User0042" "User0042" 70 80
      chatty (after (create_chat fold (draw "c") "c_2" "Other" "User0042" 70) chatty) _
      (ne_of_same "c_2" "" refl) refl

-- A page whose product with the size wraps to the start of the list.
page_of_list_lem_example :
    page_of_list {A = String} (2 ^ 62 + 1) 4 ("a" ∷ "b" ∷ "c" ∷ []) ≡ some ([], false)
page_of_list_lem_example =
    page_of_list_lem (2 ^ 62 + 1) 4 ("a" ∷ "b" ∷ "c" ∷ []) (omega arith) (omega arith) (omega arith)
      (omega arith)

count-preview_for_example : runes (preview_for plain "two  words" "photo.jpg") ≤ 120
count-preview_for_example = count-preview_for plain "two  words" "photo.jpg"

send_message_taken_example :
    send_message plain (draw "n") "c_1" "key2" author "other" "f_1" 60 sent_home ≡ err file_taken
unfolding key_dec select count message_by_client_id send_message send_new attachment_for
    insert_new_message insert_event fill_event insert_message bind_file touch_chat update
send_message_taken_example =
    send_message_taken plain (draw "m") (draw "n") "c_1" "c_1" "key" "key2" author author "hello"
      "other" "f_1" 50 60 chatty sent_home _ refl refl sent_run refl (omega arith)
