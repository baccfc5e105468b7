-- ===== src/Sql/Counts.antt =====
-- How many rows meet a test after an UPDATE or a DELETE.
use nox_app.Sql.Defs.{select, update, delete, count}
use nox_app.Base.{◌≤◌, ◌<◌, ◌≡◌, refl, Bool, true, false, some, List, [], ◌∷◌, arith, length, All}

module _ {ℓ} {A : Type ℓ} (q p : A → Bool) (f : A → A) where
  pub count-update-le :
      (xs : List A) → ((x : A) → q (f x) ≡ true → q x ≡ true) → count q (update p f xs) ≤ count q xs
  unfolding count update
  count-update-le [] h = omega arith
  count-update-le (x ∷ xs) h = ground (arith, h x, count-update-le xs h)

  pub count-update :
      (xs : List A) → ((x : A) → q (f x) ≡ q x) → count q (update p f xs) ≡ count q xs
  unfolding count update
  count-update [] h = refl
  count-update (x ∷ xs) h = ground (arith, h x, count-update xs h)

  -- An UPDATE of all the rows that meet the test, to rows that do not.
  pub count-update-zero :
      (xs : List A)
      → ((x : A) → q x ≡ true → p x ≡ true)
      → ((x : A) → q x ≡ true → q (f x) ≡ false)
      → ((x : A) → q (f x) ≡ true → q x ≡ true)
      → count q (update p f xs) ≡ 0
  unfolding count update
  count-update-zero [] h k m = refl
  count-update-zero (x ∷ xs) h k m = ground (arith, h x, k x, m x, count-update-zero xs h k m)

module _ {ℓ} {A : Type ℓ} (q p : A → Bool) where
  pub count-delete-le : (xs : List A) → count q (delete p xs) ≤ count q xs
  unfolding count delete
  count-delete-le [] = omega arith
  count-delete-le (x ∷ xs) = ground (arith, count-delete-le xs)

  pub count-delete :
      (xs : List A) → ((x : A) → p x ≡ true → q x ≡ false) → count q (delete p xs) ≡ count q xs
  unfolding count delete
  count-delete [] h = refl
  count-delete (x ∷ xs) h = ground (arith, h x, count-delete xs h)

module _ {ℓ} {A : Type ℓ} (p : A → Bool) where
  pub count-delete_self : (xs : List A) → count p (delete p xs) ≡ 0
  unfolding count delete
  count-delete_self [] = refl
  count-delete_self (x ∷ xs) = ground (arith, count-delete_self xs)

  pub length-update : (f : A → A) (xs : List A) → length (update p f xs) ≡ length xs
  unfolding update
  length-update f [] = refl
  length-update f (x ∷ xs) = omega (arith, length-update f xs)

  pub length-count-le : (xs : List A) → count p xs ≤ length xs
  unfolding count
  length-count-le [] = omega arith
  length-count-le (x ∷ xs) = ground (arith, length-count-le xs)

  pub count_of_found : (xs : List A) (y : A) → select p xs ≡ some y → 0 < count p xs
  unfolding select count
  count_of_found [] y h = ground arith
  count_of_found (x ∷ xs) y h = ground (arith, count_of_found xs y)

  pub All-of_count : (xs : List A) → count p xs ≡ 0 → All (λ x. p x ≡ false) xs
  unfolding count
  All-of_count [] h = tt
  All-of_count (x ∷ xs) h = ground (arith, All-of_count xs)

  pub count_of_All : (xs : List A) → All (λ x. p x ≡ false) xs → count p xs ≡ 0
  unfolding count
  count_of_All [] h = refl
  count_of_All (x ∷ xs) h = ground (arith, count_of_All xs h.1)
