-- ===== src/Store/Names/Own.antt =====
-- internal/store/store.go: the names of chats up to case, and their refusal where they are taken.
use nox_app.Base.{
  ℕ, ◌≤◌, ◌<◌, String, ◌≡◌, refl, ap, sym, subst, List, [], ◌∷◌, inl, inr, arith, All, same, Bool,
  Bool-cases,
}
use nox_app.Sql.{count}
use nox_app.Sql.Laws.{All-append, All-update, select_of_count}
use nox_app.Db.{Db, Chat, ChatRow}
use nox_app.Tx.{ok, err, name_taken}
use nox_app.Store.Identity.{Entropy}
use nox_app.Store.Chats.{Made, is_chat, is_named, insert_new_chat, create_chat, rename_chat}
use nox_app.Store.Names.{
  HasOwnRows, inserted, create_split, rename_split, renaming, create_chat-HasOwnRows,
  rename_chat-HasOwnRows,
}

module _ (fold_case : String → String) where
  -- The chat's own name, folded, is this.
  abbrev pub is_called : String → ChatRow → Bool
  is_called folded r = same (fold_case r.chat.name) folded

  -- The row keeps its own name, folded.
  abbrev pub IsFolded : ChatRow → Type 0
  IsFolded r = r.name_ci ≡ fold_case r.chat.name

  -- No two chats have one id, no two have names that fold to one, and each row keeps its own
  -- name's fold.
  pub record HasOwnNames (db : Db) : Type 0 where
    pub ids : (id : String) → count (is_chat id) db.chats ≤ 1
    pub names : (folded : String) → count (is_called folded) db.chats ≤ 1
    pub folds : All IsFolded db.chats

  called_named :
      (n : String) (cs : List ChatRow)
      → All IsFolded cs
      → count (is_called n) cs ≡ count (is_named n) cs
  unfolding count
  called_named n [] a = refl
  called_named n (c ∷ cs) a = rw (a.0, called_named n cs a.1) refl

  rows_of : (db : Db) → HasOwnNames db → HasOwnRows db
  rows_of db own = record {
    ids = own.ids;
    names = λ n. rw (sym (called_named n db.chats own.folds)) (own.names n);
  }

  names_of : (db : Db) → All IsFolded db.chats → HasOwnRows db → HasOwnNames db
  names_of db folds rows = record {
    ids = rows.ids;
    names = λ n. rw (called_named n db.chats folds) (rows.names n);
    folds = folds;
  }

  inserted-IsFolded :
      (id name label : String) (now : ℕ) (db db' : Db) (m : Made Chat)
      → insert_new_chat fold_case id name label now db ≡ ok (m, db')
      → All IsFolded db.chats
      → All IsFolded db'.chats
  inserted-IsFolded id name label now db db' m e a =
      let (rows, is_new, no_id, no_name) = inserted fold_case id name label now db db' m e in
      rw rows (
        All-append IsFolded db.chats (record { chat = m.value; name_ci = fold_case name } ∷ []) a
          (ap (λ c. fold_case c.name) (sym is_new), tt))

  create-HasOwnNames :
      (rnd : Entropy) (id name label : String) (now : ℕ) (db db' : Db) (m : Made Chat)
      → create_chat fold_case rnd id name label now db ≡ ok (m, db')
      → HasOwnNames db
      → HasOwnNames db'
  create-HasOwnNames rnd id name label now db db' m e own =
      elim (create_split fold_case rnd id name label now db db' m e) [
        | inl still ↦ subst HasOwnNames (sym still) own
        | inr (i, made) ↦
            names_of db' (inserted-IsFolded i name label now db db' m made own.folds)
              (create_chat-HasOwnRows fold_case rnd id name label now db db' m e (rows_of db own))
      ]

  -- With a new id and a name that a chat has, in whatever case.
  create_taken :
      (rnd : Entropy) (id name label : String) (now : ℕ) (db : Db)
      → HasOwnNames db
      → count (is_chat id) db.chats ≡ 0
      → 0 < count (is_called (fold_case name)) db.chats
      → create_chat fold_case rnd id name label now db ≡ err name_taken
  unfolding create_chat insert_new_chat
  create_taken rnd id name label now db own fresh taken =
      let rows : 0 < count (is_named (fold_case name)) db.chats =
        rw (sym (called_named (fold_case name) db.chats own.folds)) taken in
      let nobody = select_of_count (is_chat id) db.chats fresh in
      elim (Bool-cases (same id "")) [
        | inl h ↦ ground (arith, nobody, rows)
        | inr h ↦ ground (arith, nobody, rows)
      ]

  -- After a create that succeeds, on a store where no two chats have one id or one name up to
  -- case and each row keeps its own name's fold: so it is again, and a create with an id that no
  -- chat has and a name that a chat has up to case is refused because the name is taken.
  pub create_chat-HasOwnNames :
      (rnd rnd' : Entropy) (id id' name name' label label' : String) (now now' : ℕ) (db db' : Db)
      (m : Made Chat)
      → create_chat fold_case rnd id name label now db ≡ ok (m, db')
      → HasOwnNames db
      → count (is_chat id') db'.chats ≡ 0
      → 0 < count (is_called (fold_case name')) db'.chats
      → HasOwnNames db' × (create_chat fold_case rnd' id' name' label' now' db' ≡ err name_taken)
  create_chat-HasOwnNames rnd rnd' id id' name name' label label' now now' db db' m e own fresh
        taken =
      let again = create-HasOwnNames rnd id name label now db db' m e own in
      (again, create_taken rnd' id' name' label' now' db' again fresh taken)

  -- Where no two chats have one id or one name up to case, and each row keeps its own name's fold,
  -- so it is after a rename that succeeds.
  pub rename_chat-HasOwnNames :
      (id name : String) (db db' : Db) (m : Made Chat)
      → rename_chat fold_case id name db ≡ ok (m, db')
      → HasOwnNames db
      → HasOwnNames db'
  unfolding renaming
  rename_chat-HasOwnNames id name db db' m e own =
      elim (rename_split fold_case id name db db' m e) [
        | inl still ↦ subst HasOwnNames (sym still) own
        | inr (rows, free) ↦
            names_of db'
              (rw rows (
                All-update IsFolded IsFolded (is_chat id) (renaming fold_case name) db.chats
                  (λ c h. ground arith) own.folds))
              (rename_chat-HasOwnRows fold_case id name db db' m e (rows_of db own))
      ]
