-- ===== src/Sql/Members.antt =====
-- Which rows a query returns, whatever its order.
use nox_app.Sql.Defs.{where_rows, place, order_by}
use nox_app.Base.{
  ◌≡◌, refl, ap, subst, sym, inl, inr, Bool, true, List, [], ◌∷◌, map, All, Bool-cases,
}

-- `x` stands somewhere in the list.
pub data Has {ℓ} {A : Type ℓ} (x : A) : List A → Type ℓ where
  first : {y : A} (ys : List A) → x ≡ y → Has x (y ∷ ys)
  further : (y : A) {ys : List A} → Has x ys → Has x (y ∷ ys)

module _ {ℓ} {A : Type ℓ} (x : A) where
  Has-where_rows : (p : A → Bool) {xs : List A} → p x ≡ true → Has x xs → Has x (where_rows p xs)
  unfolding where_rows
  Has-where_rows p h (first {y = y} ys e) =
      rw (subst (λ z. p z ≡ true) e h) (first (where_rows p ys) e)
  Has-where_rows p h (further y {ys = ys} m) = elim (Bool-cases (p y)) [
    | inl e ↦ rw e (further y (Has-where_rows p h m))
    | inr e ↦ rw e (Has-where_rows p h m)
  ]

  Has-place_self : (before : A → A → Bool) (ys : List A) → Has x (place before x ys)
  unfolding place
  Has-place_self before [] = first [] refl
  Has-place_self before (y ∷ ys) = elim (Bool-cases (before y x)) [
    | inl e ↦ rw e (further y (Has-place_self before ys))
    | inr e ↦ rw e (first (y ∷ ys) refl)
  ]

  Has-place : (before : A → A → Bool) (z : A) {ys : List A} → Has x ys → Has x (place before z ys)
  unfolding place
  Has-place before z (first {y = y} ys h) = elim (Bool-cases (before y z)) [
    | inl e ↦ rw e (first (place before z ys) h)
    | inr e ↦ rw e (further z (first ys h))
  ]
  Has-place before z (further y {ys = ys} m) = elim (Bool-cases (before y z)) [
    | inl e ↦ rw e (further y (Has-place before z m))
    | inr e ↦ rw e (further z (further y m))
  ]

  Has-order_by : (before : A → A → Bool) {ys : List A} → Has x ys → Has x (order_by before ys)
  unfolding order_by
  Has-order_by before (first {y = y} ys h) =
      subst (λ z. Has x (place before z (order_by before ys))) h
        (Has-place_self before (order_by before ys))
  Has-order_by before (further y m) = Has-place before y (Has-order_by before m)

module _ {ℓ κ} {A : Type ℓ} {B : Type κ} (f : A → B) where
  Has-map : {x : A} {xs : List A} → Has x xs → Has (f x) (map f xs)
  Has-map (first ys e) = first (map f ys) (ap f e)
  Has-map (further y m) = further (f y) (Has-map m)

module _ {ℓ κ} {A : Type ℓ} (P : A → Type κ) where
  pub All-Has : {x : A} {xs : List A} → Has x xs → All P xs → P x
  All-Has (first ys e) a = subst P (sym e) a.0
  All-Has (further y m) a = All-Has m a.1

  pub All-of_Has : (xs : List A) → ((x : A) → Has x xs → P x) → All P xs
  All-of_Has [] h = tt
  All-of_Has (x ∷ xs) h = (h x (first xs refl), All-of_Has xs (λ y m. h y (further x m)))

-- A query returns every row that meets its test.
pub Has-query {ℓ κ} :
    {A : Type ℓ} {B : Type κ} (p : A → Bool) (before : A → A → Bool) (f : A → B) (x : A)
    {xs : List A}
    → Has x xs
    → p x ≡ true
    → Has (f x) (map f (order_by before (where_rows p xs)))
Has-query p before f x m h = Has-map f (Has-order_by x before (Has-where_rows x p h m))
