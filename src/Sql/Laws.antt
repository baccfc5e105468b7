-- ===== src/Sql/Laws.antt =====
-- Laws of the statements, which the proofs about the store use with the statements shut.
use nox_app.Sql.Defs.{select, update, delete, where_rows, count, place, order_by}
use nox_app.Base.{
  ◌+◌, ◌≤◌, ◌≡◌, refl, Bool, true, false, Option, none, some, List, [], ◌∷◌, ◌++◌, arith, All,
  if◌then◌else◌,
}

-- What UPDATE does to one row.
abbrev pub touched {ℓ} : {A : Type ℓ} → (A → Bool) → (A → A) → A → A
touched p f x = if p x then f x else x

abbrev pub on_row {ℓ} : {A : Type ℓ} → (A → A) → Option A → Option A
on_row f none = none
on_row f (some x) = some (f x)

-- The first of two reads that finds a row.
abbrev pub or_row {ℓ} : {A : Type ℓ} → Option A → Option A → Option A
or_row none o = o
or_row (some x) o = some x

module _ {ℓ} {A : Type ℓ} (q p : A → Bool) (f : A → A) where
  -- An UPDATE that keeps what the query tests is seen in the row the query reads.
  pub select-update :
      (xs : List A)
      → ((x : A) → q (f x) ≡ q x)
      → select q (update p f xs) ≡ on_row (touched p f) (select q xs)
  unfolding select update
  select-update [] keep = refl
  select-update (x ∷ xs) keep = ground (arith, keep x, select-update xs keep)

module _ {ℓ} {A : Type ℓ} (p : A → Bool) where
  pub select-append : (xs ys : List A) → select p (xs ++ ys) ≡ or_row (select p xs) (select p ys)
  unfolding select
  select-append [] ys = refl
  select-append (x ∷ xs) ys = ground (arith, select-append xs ys)

  pub select-meets : (xs : List A) (y : A) → select p xs ≡ some y → p y ≡ true
  unfolding select
  select-meets [] y h = ground arith
  select-meets (x ∷ xs) y h = ground (arith, select-meets xs y)

  pub select_of_count : (xs : List A) → count p xs ≡ 0 → select p xs ≡ none
  unfolding select count
  select_of_count [] h = refl
  select_of_count (x ∷ xs) h = ground (arith, select_of_count xs)

  pub count_of_select : (xs : List A) → select p xs ≡ none → count p xs ≡ 0
  unfolding select count
  count_of_select [] h = refl
  count_of_select (x ∷ xs) h = ground (arith, count_of_select xs)

  pub count-append : (xs ys : List A) → count p (xs ++ ys) ≡ count p xs + count p ys
  unfolding count
  count-append [] ys = omega arith
  count-append (x ∷ xs) ys = ground (arith, count-append xs ys)

  module _ {κ} (P : A → Type κ) where
    pub All-select : (xs : List A) (x : A) → All P xs → select p xs ≡ some x → P x
    unfolding select
    All-select [] y a h = ground arith
    All-select (x ∷ xs) y a h = ground (arith, All-select xs y a.1)

    pub All-delete : (xs : List A) → All P xs → All P (delete p xs)
    unfolding delete
    All-delete [] a = a
    All-delete (x ∷ xs) a = ground (arith, All-delete xs a.1)

    pub All-where_rows : (xs : List A) → ((x : A) → p x ≡ true → P x) → All P (where_rows p xs)
    unfolding where_rows
    All-where_rows [] h = tt
    All-where_rows (x ∷ xs) h = ground (arith, All-where_rows xs h, h x)

module _ {ℓ κ λ'} {A : Type ℓ} (P : A → Type κ) (Q : A → Type λ') where
  pub All-mono : (xs : List A) → ((x : A) → P x → Q x) → All P xs → All Q xs
  All-mono [] k a = tt
  All-mono (x ∷ xs) k a = (k x a.0, All-mono xs k a.1)

  pub All-both : (xs : List A) → All P xs → All Q xs → All (λ x. P x × Q x) xs
  All-both [] a b = tt
  All-both (x ∷ xs) a b = ((a.0, b.0), All-both xs a.1 b.1)

module _ {ℓ κ λ'} {A : Type ℓ} (P : A → Type κ) (Q : A → Type λ') (p : A → Bool) (f : A → A) where
  pub All-update :
      (xs : List A) → ((x : A) → P x → Q (touched p f x)) → All P xs → All Q (update p f xs)
  unfolding update
  All-update [] k a = tt
  All-update (x ∷ xs) k a = (k x a.0, All-update xs k a.1)

module _ {ℓ κ} {A : Type ℓ} (P : A → Type κ) where
  pub All-append : (xs ys : List A) → All P xs → All P ys → All P (xs ++ ys)
  All-append [] ys a b = b
  All-append (x ∷ xs) ys a b = (a.0, All-append xs ys a.1 b)

module _ {ℓ} {A : Type ℓ} (p q : A → Bool) where
  -- A narrower query whose test the first row of the wider one meets reads that row too.
  pub select_narrow :
      (xs : List A) (x : A)
      → ((y : A) → q y ≡ true → p y ≡ true)
      → select p xs ≡ some x
      → q x ≡ true
      → select q xs ≡ some x
  unfolding select
  select_narrow [] x n h e = ground arith
  select_narrow (y ∷ ys) x n h e = ground (arith, n y, select_narrow ys x n)

  select-none :
      (xs : List A) → ((y : A) → q y ≡ true → p y ≡ true) → count p xs ≡ 0 → select q xs ≡ none
  unfolding select count
  select-none [] n c = refl
  select-none (y ∷ ys) n c = ground (arith, n y, select-none ys n)

  -- Where one row at most meets the wider test, and not the narrower, the narrower query is empty.
  pub select_unmet :
      (xs : List A) (x : A)
      → ((y : A) → q y ≡ true → p y ≡ true)
      → count p xs ≤ 1
      → select p xs ≡ some x
      → q x ≡ false
      → select q xs ≡ none
  unfolding select count
  select_unmet [] x n c h e = refl
  select_unmet (y ∷ ys) x n c h e = ground (arith, n y, select_unmet ys x n, select-none ys n)

pub order_by-one {ℓ} :
    {A : Type ℓ} (before : A → A → Bool) (x : A) → order_by before (x ∷ []) ≡ x ∷ []
unfolding order_by place
order_by-one before x = refl
