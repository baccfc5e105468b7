-- ===== src/Base/Tests.antt =====
-- Boolean tests on numbers and texts, and the conditional.
use Prim.Native.Nat.{ℕ, compare, Ordering}
use Prim.Native.String.{String}
use mathlib.Core.Path.{◌≡◌, refl, ◌∙◌, sym}
use mathlib.Core.Logic.{◌⊎◌, inl, inr}
use mathlib.Core.Bool.{Bool, true, false, false≢true}
use mathlib.Core.Option.{Option, none, some}
use text.Mathlib.Text.{◌==◌ as str_eq}
use text.Mathlib.TextEquality.{eq_iff}
use native.Mathlib.Omega.{arith}

abbrev pub ltb : ℕ → ℕ → Bool
ltb a b = elim (compare a b) [ Ordering.lt ↦ true | _ ↦ false ]

abbrev pub leb : ℕ → ℕ → Bool
leb a b = elim (compare a b) [ Ordering.gt ↦ false | _ ↦ true ]

infix 50 ◌==◌
abbrev pub ◌==◌ : ℕ → ℕ → Bool
a == b = elim (compare a b) [ Ordering.eq ↦ true | _ ↦ false ]

infix 1 if◌then◌else◌
abbrev pub if◌then◌else◌ {ℓ} : {A : Type ℓ} → Bool → A → A → A
if true then x else y = x
if false then x else y = y

pub Bool-cases : (b : Bool) → (b ≡ true) ⊎ (b ≡ false)
Bool-cases true = inl refl
Bool-cases false = inr refl

pub Option-cases {ℓ} : {A : Type ℓ} (o : Option A) → (o ≡ none) ⊎ ((a : A) × (o ≡ some a))
Option-cases none = inl refl
Option-cases (some a) = inr (a, refl)

eq_of_str_eq : (s t : String) → str_eq s t ≡ true → s ≡ t
eq_of_str_eq s t e = (eq_iff s t).0 e

ne_of_str_eq : (s t : String) → str_eq s t ≡ false → ¬ (s ≡ t)
ne_of_str_eq s t e p = false≢true (sym e ∙ (eq_iff s t).1 p)

-- `String` equality as a decision, so that each branch of a test has its proof.
unfoldable pub key_dec : (s t : String) → Dec (s ≡ t)
unfolding Bool-cases eq_of_str_eq ne_of_str_eq
key_dec s t = elim (Bool-cases (str_eq s t)) [
  | inl e ↦ yes (eq_of_str_eq s t e)
  | inr e ↦ no (ne_of_str_eq s t e)
]

-- `s == t` on strings.
abbrev pub same : String → String → Bool
same s t = elim (key_dec s t) [ yes _ ↦ true | no _ ↦ false ]

abbrev pub is_none {ℓ} : {A : Type ℓ} → Option A → Bool
is_none none = true
is_none (some _) = false

-- SQL's `column = value`, which a NULL column never meets.
abbrev pub holds : Option String → String → Bool
holds none t = false
holds (some s) t = same s t

pub same_refl : (s : String) → same s s ≡ true
same_refl s = ground arith

pub same→eq : (s t : String) → same s t ≡ true → s ≡ t
same→eq s t h = ground arith

pub ne_of_same : (s t : String) → same s t ≡ false → ¬ (s ≡ t)
ne_of_same s t h e = ground arith

pub some_inj {ℓ} : {A : Type ℓ} (x y : A) → some x ≡ some y → x ≡ y
some_inj x y e = ground arith
