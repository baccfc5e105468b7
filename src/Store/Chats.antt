-- ===== src/Store/Chats.antt =====
-- internal/store/store.go: chats. `fold_case` is foldCase, over the tables of package unicode.
use Prim.Native.String.{compare as text_compare, ◌++◌ as text_append}
use Prim.Native.Nat.{Ordering}
use nox_app.Base.{
  map, ℕ, ◌+◌, ◌-◌, ◌*◌, String, Bool, true, false, not, ◌&&◌, ◌||◌, Option, none, some, List, [],
  ◌∷◌, ◌++◌, ltb, leb, ◌==◌, if◌then◌else◌, same, length, take, drop, ◌%◌, ◌^◌,
}
use nox_app.Sql.{select, update, count, where_rows, order_by}
use nox_app.Db.{Db, Chat, ChatRow, EventRow, of_chat, chat_created, chat_updated}
use nox_app.Tx.{
  Tx, Result, ok, err, pure, fail, ◌>>=◌, ◌>>◌, read, write, require, name_taken, chat_not_found,
  internal,
}
use nox_app.Store.Identity.{Entropy}
use nox_app.Store.Journal.{insert_event}

abbrev pub is_chat : String → ChatRow → Bool
is_chat id r = same r.chat.chat_id id

abbrev pub is_named : String → ChatRow → Bool
is_named name_ci r = same r.name_ci name_ci

-- The answer of a command that may create something: the thing, its event, and whether this call
-- made it.
pub record Made (A : Type 0) : Type 0 where
  pub value : A
  pub event : Option EventRow
  pub made : Bool

-- An INSERT into chats: refused for an id or a folded name that is there, and for an empty name.
unfoldable pub insert_chat : ChatRow → Tx (Unit {0})
insert_chat row = do
  ids ← read (λ db. count (is_chat row.chat.chat_id) db.chats)
  names ← read (λ db. count (is_named row.name_ci) db.chats)
  require (ids == 0 && names == 0) internal
  require (not (same row.chat.name "") && not (same row.name_ci "")) internal
  write (λ db. record db { chats = db.chats ++ row ∷ [] })

abbrev pub new_chat : String → String → String → ℕ → Chat
new_chat id name label now = record {
  chat_id = id;
  name = name;
  created_at = now;
  created_by_label = label;
  last_message_preview = "";
  last_activity_at = now;
}

abbrev pub chat_made : ChatRow → Made Chat
chat_made r = record { value = r.chat; event = none; made = false }

module _ (fold_case : String → String) where
  -- CreateChat once no chat has the id.
  unfoldable pub insert_new_chat : String → String → String → ℕ → Tx (Made Chat)
  insert_new_chat id name label now = do
    taken ← read (λ db. count (is_named (fold_case name)) db.chats)
    require (taken == 0) name_taken
    let chat = new_chat id name label now
    insert_chat (record { chat = chat; name_ci = fold_case name })
    seq ← insert_event chat_created (of_chat chat)
    pure (record {
      value = chat;
      event = some (record { seq = seq; type = chat_created; payload = of_chat chat });
      made = true;
    })

  abbrev pub create_unless :
      Option ChatRow → Entropy → String → String → String → ℕ → Tx (Made Chat)
  create_unless (some r) rnd chat_id name label now = pure (chat_made r)
  create_unless none rnd chat_id name label now =
      insert_new_chat (if same chat_id "" then text_append "c_" rnd.id else chat_id) name label now

  unfoldable pub create_chat : Entropy → String → String → String → ℕ → Tx (Made Chat)
  create_chat rnd chat_id name label now = do
    existing ← read λ db. if same chat_id "" then none else select (is_chat chat_id) db.chats
    create_unless existing rnd chat_id name label now

  -- RenameChat once the chat is read.
  unfoldable pub rename_found : ChatRow → String → String → Tx (Made Chat)
  rename_found r chat_id name = do
    taken ← read λ db. count (λ c. is_named (fold_case name) c && not (is_chat chat_id c)) db.chats
    require (taken == 0) name_taken
    require (not (same name "") && not (same (fold_case name) "")) internal
    write λ db. record db {
      chats =
          update (is_chat chat_id)
            (λ c. record c { chat = record c.chat { name = name }; name_ci = fold_case name })
            db.chats;
    }
    let chat : Chat = record r.chat { name = name }
    seq ← insert_event chat_updated (of_chat chat)
    pure (record {
      value = chat;
      event = some (record { seq = seq; type = chat_updated; payload = of_chat chat });
      made = true;
    })

  abbrev pub rename_row : Option ChatRow → String → String → Tx (Made Chat)
  rename_row none chat_id name = fail chat_not_found
  rename_row (some r) chat_id name =
      if same r.chat.name name then pure (chat_made r) else rename_found r chat_id name

  unfoldable pub rename_chat : String → String → Tx (Made Chat)
  rename_chat chat_id name = do
    row ← read (λ db. select (is_chat chat_id) db.chats)
    rename_row row chat_id name

  -- NameAvailable; an empty `exclude` leaves out no chat.
  unfoldable pub name_available : String → String → Db → Bool
  name_available name exclude db =
      count (λ c. is_named (fold_case name) c && (same exclude "" || not (is_chat exclude c)))
        db.chats
      == 0

abbrev pub card_or_missing : Option ChatRow → Result Chat
card_or_missing none = err chat_not_found
card_or_missing (some r) = ok r.chat

unfoldable pub get_chat : String → Db → Result Chat
get_chat id db = card_or_missing (select (is_chat id) db.chats)

-- An int of 64 bits by its residue: from `int_bound` on it is negative.
abbrev pub int_values : ℕ
int_values = 2 ^ 64

abbrev pub int_bound : ℕ
int_bound = 2 ^ 63

abbrev pub is_negative : ℕ → Bool
is_negative n = leb int_bound n

-- min of an int and a length.
abbrev pub min_int : ℕ → ℕ → ℕ
min_int n len = if is_negative n || leb n len then n else len

-- The slice expression xs[start:stop], where none is the panic of one out of range.
abbrev pub slice_of {ℓ} : {A : Type ℓ} → ℕ → ℕ → List A → Option (List A)
slice_of start stop xs =
    if not (is_negative start) && not (is_negative stop) && leb start stop && leb stop (length xs)
    then some (take (stop - start) (drop start xs))
    else none

abbrev pub page_with {ℓ} : {A : Type ℓ} → Bool → Option (List A) → Option (List A × Bool)
page_with more none = none
page_with more (some xs) = some (xs, more)

-- The slicing of ListChats, and the guard before its product; the caller has checked that `page` and
-- `size` are at least 1. None is a panic.
unfoldable pub page_of_list {ℓ} : {A : Type ℓ} → ℕ → ℕ → List A → Option (List A × Bool)
page_of_list page size matched =
    let start = ((page - 1) * size) % int_values in
    let stop = min_int ((start + size) % int_values) (length matched) in
    if leb (length matched) (page - 1)
    then some ([], false)
    else if not (is_negative start) && leb (length matched) start
    then some ([], false)
    else page_with (is_negative stop || ltb stop (length matched)) (slice_of start stop matched)

-- ORDER BY last_activity_at DESC, chat_id ASC.
abbrev pub livelier : ChatRow → ChatRow → Bool
livelier a b =
    ltb b.chat.last_activity_at a.chat.last_activity_at
    || (a.chat.last_activity_at == b.chat.last_activity_at
        && elim (text_compare a.chat.chat_id b.chat.chat_id) [ Ordering.lt ↦ true | _ ↦ false ])

-- `trim_space` and `contains` are those of package strings.
module _ (fold_case trim_space : String → String) (contains : String → String → Bool) where
  abbrev pub is_match : String → ChatRow → Bool
  is_match needle r = same needle "" || contains (fold_case r.chat.name) needle

  unfoldable pub list_chats : ℕ → ℕ → String → Db → Option (List Chat × Bool)
  unfolding page_of_list
  list_chats page size query db = page_of_list page size (
      map (λ r. r.chat)
        (where_rows (is_match (fold_case (trim_space query))) (order_by livelier db.chats)))
