-- ===== src/Store/Paging.antt =====
-- internal/store/store.go: the pages of ListChats and the length of a preview.
use nox_app.Base.{
  ℕ, zero, suc, ◌+◌, ◌-◌, ◌*◌, ◌≤◌, ◌≡◌, refl, Bool, false, List, [], ◌∷◌, inl, inr, arith,
  Bool-cases, leb, ltb, ap, some, true, not, ◌||◌, ◌&&◌, ◌<◌, ◌%◌, take, drop, length, min,
}
use nox_app.Store.Chats.{
  page_of_list, int_values, int_bound, is_negative, min_int, slice_of, page_with,
}

-- A page of at least one card starts no earlier than its number.
start_bound : (p size : ℕ) → 1 ≤ size → p ≤ p * size
start_bound zero size h = omega arith
start_bound (suc p) size h = let rest = start_bound p size h in omega (arith, rest, h)

-- The pages before a length end within so many sizes.
next_start : (p n size : ℕ) → p < n → p * size + size ≤ n * size
next_start p zero size h = absurd (omega (arith, h))
next_start zero (suc n) size h = omega arith
next_start (suc p) (suc n) size h =
    let rest = next_start p n size (omega (arith, h)) in omega (arith, rest)

module _ {ℓ} {A : Type ℓ} where
  drop_all : (n : ℕ) (xs : List A) → length xs ≤ n → drop n xs ≡ []
  drop_all zero [] h = refl
  drop_all (suc n) [] h = refl
  drop_all zero (x ∷ xs) h = absurd (omega (arith, h))
  drop_all (suc n) (x ∷ xs) h = drop_all n xs (omega (arith, h))

  take_all : (n m : ℕ) (xs : List A) → length xs ≤ n → length xs ≤ m → take n xs ≡ take m xs
  take_all zero zero xs h k = refl
  take_all zero (suc m) [] h k = refl
  take_all (suc n) zero [] h k = refl
  take_all (suc n) (suc m) [] h k = refl
  take_all zero m (x ∷ xs) h k = absurd (omega (arith, h))
  take_all (suc n) zero (x ∷ xs) h k = absurd (omega (arith, k))
  take_all (suc n) (suc m) (x ∷ xs) h k = ground (arith, take_all n m xs)

  length-drop : (n : ℕ) (xs : List A) → length (drop n xs) ≡ length xs - n
  length-drop zero xs = omega arith
  length-drop (suc n) [] = omega arith
  length-drop (suc n) (x ∷ xs) = omega (arith, length-drop n xs)

  -- A page by its definition.
  abbrev pub plain_page : ℕ → ℕ → List A → List A × Bool
  plain_page page size xs =
      (take size (drop ((page - 1) * size) xs), ltb ((page - 1) * size + size) (length xs))

  -- From the start of a page.
  slice :
      (start size : ℕ) (xs : List A)
      → start ≤ length xs
      → take (min (start + size) (length xs) - start) (drop start xs) ≡ take size (drop start xs)
  slice start size xs h = elim (Bool-cases (leb (start + size) (length xs))) [
    | inl full ↦
        let all : min (start + size) (length xs) - start ≡ size = ground arith in rw all refl
    | inr short ↦
        take_all (min (start + size) (length xs) - start) size (drop start xs)
          (let rest = length-drop start xs in ground arith)
          (let rest = length-drop start xs in ground arith)
  ]

  short_page :
      (size start : ℕ) (xs : List A)
      → 1 ≤ size
      → length xs ≤ start
      → ◌≡◌ {A = List A × Bool}
          ([], false)
          (take size (drop start xs), ltb (start + size) (length xs))
  short_page size start xs s h =
      let over : ltb (start + size) (length xs) ≡ false = ground arith in
      rw (drop_all start xs h, over) (empty_page size)
    where
      empty_page : (size : ℕ) → ◌≡◌ {A = List A × Bool} ([], false) (take size [], false)
      empty_page zero = refl
      empty_page (suc n) = refl

  full_page :
      (size start : ℕ) (xs : List A)
      → start ≤ length xs
      → ◌≡◌ {A = List A × Bool}
          (
            take (min (start + size) (length xs) - start) (drop start xs),
            ltb (min (start + size) (length xs)) (length xs),
          )
          (take size (drop start xs), ltb (start + size) (length xs))
  full_page size start xs h =
      let more : ltb (min (start + size) (length xs)) (length xs) ≡ ltb (start + size) (length xs) =
        ground arith in
      rw (slice start size xs h, more) refl

  -- Where nothing wraps, the slice of the code is that of the plain definition.
  guarded_page :
      (start size : ℕ) (xs : List A)
      → start ≤ length xs
      → start + size < int_bound
      → length xs < int_bound
      → page_with
          (is_negative (min_int ((start + size) % int_values) (length xs))
            || ltb (min_int ((start + size) % int_values) (length xs)) (length xs))
          (slice_of start (min_int ((start + size) % int_values) (length xs)) xs)
        ≡ some (take size (drop start xs), ltb (start + size) (length xs))
  guarded_page start size xs h b l =
      let inside : (start + size) % int_values ≡ start + size = omega (arith, b) in
      let stop : min_int ((start + size) % int_values) (length xs)
          ≡ min (start + size) (length xs) =
        rw inside (ground arith) in
      let start_in : is_negative start ≡ false = ground arith in
      let stop_in : is_negative (min (start + size) (length xs)) ≡ false = ground arith in
      let order : leb start (min (start + size) (length xs)) ≡ true = ground arith in
      let end : leb (min (start + size) (length xs)) (length xs) ≡ true = ground arith in
      rw (stop, start_in, stop_in, order, end) (ap some (full_page size start xs h))

  -- For a page counted from 1 and a size of at least 1, where the product of the list's length and
  -- the size is an int of 64 bits, whatever int the page is: the code's computation, whose products
  -- and sums wrap, does not panic and gives the slice and the flag of the plain definition, also
  -- where the page is past the end of the list.
  pub page_of_list_lem :
      (page size : ℕ) (xs : List A)
      → 1 ≤ page
      → page < int_bound
      → 1 ≤ size
      → length xs * size < int_bound
      → page_of_list page size xs ≡ some (plain_page page size xs)
  unfolding page_of_list
  page_of_list_lem page size xs counted int s fits =
      elim (Bool-cases (leb (length xs) (page - 1))) [
        | inl past ↦ rw past (
            ap some (
              short_page size ((page - 1) * size) xs s
                (let later = start_bound (page - 1) size s in ground arith)))
        | inr h ↦
            let next = next_start (page - 1) (length xs) size (ground arith) in
            let long = start_bound (length xs) size s in
            let inside : ((page - 1) * size) % int_values ≡ (page - 1) * size =
              omega (arith, next, fits) in
            let start_in : is_negative ((page - 1) * size) ≡ false = ground (arith, next, fits) in
            elim (Bool-cases (leb (length xs) ((page - 1) * size))) [
              | inl past ↦
                  rw (h, inside, start_in, past)
                    (ap some (short_page size ((page - 1) * size) xs s (ground arith)))
              | inr k ↦
                  let below : (not (is_negative ((page - 1) * size))
                        && leb (length xs) ((page - 1) * size))
                      ≡ false =
                    rw (start_in, k) refl in
                  rw (h, inside, below)
                    (guarded_page ((page - 1) * size) size xs (ground arith)
                      (omega (arith, next, fits)) (omega (arith, long, fits)))
            ]
      ]
