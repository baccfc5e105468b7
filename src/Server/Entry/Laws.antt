-- ===== src/Server/Entry/Laws.antt =====
-- internal/server/channel.go: the count of each source, and the handshakes that make room.
use nox_app.Base.{
  ℕ, ◌+◌, ◌-◌, ◌≤◌, ◌<◌, ◌≡◌, refl, String, Bool, true, false, some, List, [], ◌∷◌, if◌then◌else◌,
  same, length, arith,
}
use nox_app.Sql.{select, delete, count, where_rows}
use nox_app.Server.Entry.{held_by, drop_source, put_source, drop_one}

held_by-drop_source :
    (s t : String) (m : List (String × ℕ))
    → held_by t (drop_source s m) ≡ (if same s t then 0 else held_by t m)
unfolding held_by drop_source
held_by-drop_source s t [] = ground arith
held_by-drop_source s t ((u, n) ∷ m) = ground (arith, held_by-drop_source s t m)

pub held_by-put_source :
    (s t : String) (n : ℕ) (m : List (String × ℕ))
    → held_by t (put_source s n m) ≡ (if same s t then n else held_by t m)
unfolding held_by put_source
held_by-put_source s t n m = ground (arith, held_by-drop_source s t m)

pub held_by-drop_one :
    (s t : String) (m : List (String × ℕ))
    → held_by t (drop_one s m) ≡ (if same s t then held_by s m - 1 else held_by t m)
unfolding drop_one
held_by-drop_one s t m =
    ground (arith, held_by-drop_source s t m, held_by-put_source s t (held_by s m - 1) m)

module _ {ℓ} {A : Type ℓ} (p : A → Bool) where
  pub length-delete : (xs : List A) → length (delete p xs) + count p xs ≡ length xs
  unfolding delete count
  length-delete [] = omega arith
  length-delete (x ∷ xs) = ground (arith, length-delete xs)

  pub delete_none : (xs : List A) → count p xs ≡ 0 → delete p xs ≡ xs
  unfolding delete count
  delete_none [] h = refl
  delete_none (x ∷ xs) h = ground (arith, delete_none xs)

  module _ (q : A → Bool) where
    -- The one row of a key goes, and with it what it counted for.
    pub count-delete_one :
        (xs : List A) (x : A)
        → select p xs ≡ some x
        → count p xs ≤ 1
        → count q (delete p xs) + (if q x then 1 else 0) ≡ count q xs
    unfolding delete count select
    count-delete_one [] x h one = ground arith
    count-delete_one (y ∷ ys) x h one = ground (arith, count-delete_one ys x, delete_none ys)

    pub where_rows-delete_one :
        (xs : List A) (x : A)
        → select p xs ≡ some x
        → count p xs ≤ 1
        → q x ≡ false
        → where_rows q (delete p xs) ≡ where_rows q xs
    unfolding delete count select where_rows
    where_rows-delete_one [] x h one n = ground arith
    where_rows-delete_one (y ∷ ys) x h one n =
        ground (arith, where_rows-delete_one ys x, delete_none ys)

    pub count_where : (xs : List A) (x : A) → select q xs ≡ some x → p x ≡ true → 0 < count p xs
    unfolding count select
    count_where [] x h m = ground arith
    count_where (y ∷ ys) x h m = ground (arith, count_where ys x)

    pub select_again :
        (xs : List A) (x : A)
        → select q xs ≡ some x
        → p x ≡ true
        → count p xs ≤ 1
        → select p xs ≡ some x
    unfolding count select
    select_again [] x h m one = ground arith
    select_again (y ∷ ys) x h m one = ground (arith, select_again ys x, count_where ys x)
