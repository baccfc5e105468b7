-- ===== src/Store/Names.antt =====
-- internal/store/store.go: the names of chats, by CreateChat and RenameChat.
pub mod Own
use Prim.Native.String.{◌++◌ as text_append}
use nox_app.Base.{
  ◌⊎◌, key_dec, ℕ, ◌≤◌, String, ◌≡◌, ◌≢◌, refl, ap, sym, ◌∙◌, subst, Bool, true, false, not, ◌&&◌,
  none, some, List, [], ◌∷◌, ◌++◌, inl, inr, arith, same, same_refl, same→eq, Option-cases,
  Bool-cases,
}
use nox_app.Sql.{select, update, count}
use nox_app.Sql.Laws.{count-append, select-append}
use nox_app.Db.{Db, Chat, ChatRow}
use nox_app.Tx.{ok}
use nox_app.Store.Identity.{Entropy}
use nox_app.Store.Journal.{insert_event}
use nox_app.Store.Chats.{
  Made, is_chat, is_named, insert_chat, insert_new_chat, new_chat, create_chat, rename_chat,
  rename_found,
}

-- No two rows have one id, and no two one name_ci.
pub record HasOwnRows (db : Db) : Type 0 where
  pub ids : (id : String) → count (is_chat id) db.chats ≤ 1
  pub names : (name_ci : String) → count (is_named name_ci) db.chats ≤ 1

module _ (f : ChatRow → ChatRow) (id new : String)
    (keeps : (c : ChatRow) → (f c).chat.chat_id ≡ c.chat.chat_id)
    (renames : (c : ChatRow) → (f c).name_ci ≡ new) where
  ids_renamed :
      (i : String) (cs : List ChatRow)
      → count (is_chat i) (update (is_chat id) f cs) ≡ count (is_chat i) cs
  unfolding count update
  ids_renamed i [] = refl
  ids_renamed i (c ∷ cs) = ground (arith, keeps c, ids_renamed i cs)

  -- The rows of a name after a rename: those that had it, and where it is the new one, the renamed.
  names_renamed :
      (n : String) (cs : List ChatRow)
      → n ≢ new
      → count (is_named n) (update (is_chat id) f cs) ≤ count (is_named n) cs
  unfolding count update
  names_renamed n [] other = omega arith
  names_renamed n (c ∷ cs) other = ground (arith, renames c, names_renamed n cs other)

  name_given :
      (cs : List ChatRow)
      → count (λ c. is_named new c && not (is_chat id c)) cs ≡ 0
      → count (is_named new) (update (is_chat id) f cs) ≤ count (is_chat id) cs
  unfolding count update
  name_given [] free = omega arith
  name_given (c ∷ cs) free = ground (arith, renames c, name_given cs)

first_row : (p : ChatRow → Bool) (c : ChatRow) → p c ≡ true → select p (c ∷ []) ≡ some c
unfolding select
first_row p c h = rw h refl

module _ (fold_case : String → String) where
  pub inserted :
      (id name label : String) (now : ℕ) (db db' : Db) (m : Made Chat)
      → insert_new_chat fold_case id name label now db ≡ ok (m, db')
      → (db'.chats ≡ db.chats ++ record { chat = m.value; name_ci = fold_case name } ∷ [])
        × (m.value ≡ new_chat id name label now)
        × (count (is_chat id) db.chats ≡ 0)
        × (count (is_named (fold_case name)) db.chats ≡ 0)
  unfolding insert_new_chat insert_chat insert_event
  inserted id name label now db db' m e = (ground arith, ground arith, ground arith, ground arith)

  added_once :
      (p : ChatRow → Bool) (cs : List ChatRow) (c : ChatRow)
      → count p cs ≤ 1
      → (p c ≡ true → count p cs ≡ 0)
      → count p (cs ++ c ∷ []) ≤ 1
  unfolding count
  added_once p cs c one free = rw (count-append p cs (c ∷ [])) (elim (Bool-cases (p c)) [
    | inl h ↦ rw (h, free h) (omega arith)
    | inr h ↦ rw h (omega arith)
  ])

  insert-HasOwnRows :
      (id name label : String) (now : ℕ) (db db' : Db) (m : Made Chat)
      → insert_new_chat fold_case id name label now db ≡ ok (m, db')
      → HasOwnRows db
      → HasOwnRows db'
  insert-HasOwnRows id name label now db db' m e own =
      let (rows, is_new, no_id, no_name) = inserted id name label now db db' m e in
      let row : ChatRow = record { chat = m.value; name_ci = fold_case name } in
      let same_id : m.value.chat_id ≡ id = ap (λ c. c.chat_id) is_new in
      record {
        ids = λ i. rw rows (
            added_once (is_chat i) db.chats row (own.ids i) (λ h.
              subst (λ k. count (is_chat k) db.chats ≡ 0)
                (sym same_id ∙ same→eq m.value.chat_id i h) no_id));
        names = λ n. rw rows (
            added_once (is_named n) db.chats row (own.names n) (λ h.
              subst (λ k. count (is_named k) db.chats ≡ 0) (same→eq (fold_case name) n h) no_name));
      }

  -- A create that succeeds wrote nothing, or inserted a chat.
  pub create_split :
      (rnd : Entropy) (id name label : String) (now : ℕ) (db db' : Db) (m : Made Chat)
      → create_chat fold_case rnd id name label now db ≡ ok (m, db')
      → (db' ≡ db) ⊎ ((i : String) × (insert_new_chat fold_case i name label now db ≡ ok (m, db')))
  unfolding create_chat
  create_split rnd id name label now db db' m e = elim (Bool-cases (same id "")) [
    | inl h ↦ inr (text_append "c_" rnd.id, ground arith)
    | inr h ↦ elim (Option-cases (select (is_chat id) db.chats)) [
      | inl none_yet ↦ inr (id, ground arith)
      | inr (r, there) ↦ inl (ground arith)
    ]
  ]

  pub create_chat-HasOwnRows :
      (rnd : Entropy) (id name label : String) (now : ℕ) (db db' : Db) (m : Made Chat)
      → create_chat fold_case rnd id name label now db ≡ ok (m, db')
      → HasOwnRows db
      → HasOwnRows db'
  create_chat-HasOwnRows rnd id name label now db db' m e own =
      elim (create_split rnd id name label now db db' m e) [
        | inl still ↦ subst HasOwnRows (sym still) own
        | inr (i, made) ↦ insert-HasOwnRows i name label now db db' m made own
      ]

  unfoldable pub renaming : String → ChatRow → ChatRow
  renaming name c = record c { chat = record c.chat { name = name }; name_ci = fold_case name }

  -- A rename that succeeds wrote nothing, or found its folded name with no other chat.
  pub rename_split :
      (id name : String) (db db' : Db) (m : Made Chat)
      → rename_chat fold_case id name db ≡ ok (m, db')
      → (db' ≡ db)
        ⊎ ((db'.chats ≡ update (is_chat id) (renaming name) db.chats)
            × (count (λ c. is_named (fold_case name) c && not (is_chat id c)) db.chats ≡ 0))
  unfolding rename_chat rename_found insert_event renaming
  rename_split id name db db' m e = elim (Option-cases (select (is_chat id) db.chats)) [
    | inl missing ↦ absurd (ground arith)
    | inr (r, there) ↦ elim (Bool-cases (same r.chat.name name)) [
      | inl h ↦ inl (ground arith)
      | inr h ↦ inr (ground arith, ground arith)
    ]
  ]

  pub rename_chat-HasOwnRows :
      (id name : String) (db db' : Db) (m : Made Chat)
      → rename_chat fold_case id name db ≡ ok (m, db')
      → HasOwnRows db
      → HasOwnRows db'
  unfolding renaming
  rename_chat-HasOwnRows id name db db' m e own = elim (rename_split id name db db' m e) [
    | inl still ↦ subst HasOwnRows (sym still) own
    | inr (rows, free) ↦ record {
      ids = λ i.
          rw
            (
              rows,
              ids_renamed (renaming name) id (fold_case name) (λ c. refl) (λ c. refl) i db.chats,
            )
            (own.ids i);
      names = λ n. rw rows (elim (key_dec n (fold_case name)) [
        | yes h ↦ rw h (
            omega (
              arith,
              name_given (renaming name) id (fold_case name) (λ c. refl) (λ c. refl) db.chats free,
              own.ids id,
            ))
        | no h ↦ omega (
          arith,
          names_renamed (renaming name) id (fold_case name) (λ c. refl) (λ c. refl) n db.chats h,
          own.names n,
        )
      ]);
    }
  ]

  -- After a create that succeeds with an id that is not empty, a create with the same id, whatever
  -- else it says, gives the same chat without an event, marked as not made now, and writes
  -- nothing.
  pub create_chat_again :
      (rnd rnd' : Entropy) (id name name' label label' : String) (now now' : ℕ) (db db' : Db)
      (m : Made Chat)
      → id ≢ ""
      → create_chat fold_case rnd id name label now db ≡ ok (m, db')
      → create_chat fold_case rnd' id name' label' now' db'
        ≡ ok (record { value = m.value; event = none; made = false }, db')
  unfolding create_chat
  create_chat_again rnd rnd' id name name' label label' now now' db db' m own e =
      elim (Option-cases (select (is_chat id) db.chats)) [
        | inr (r, there) ↦ ground arith
        | inl none_yet ↦
            let (rows, is_new, no_id, no_name) =
              inserted id name label now db db' m (ground arith) in
            let row : ChatRow = record { chat = m.value; name_ci = fold_case name } in
            let mine : is_chat id row ≡ true = rw is_new (same_refl id) in
            let found : select (is_chat id) db'.chats ≡ some row =
              rw (rows, select-append (is_chat id) db.chats (row ∷ []), none_yet)
                (first_row (is_chat id) row mine) in
            ground arith
      ]
