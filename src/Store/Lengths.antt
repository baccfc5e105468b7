-- ===== src/Store/Lengths.antt =====
-- internal/store/store.go: how long a preview is.
use Prim.Native.String.{count}
use nox_app.Base.{
  ℕ, zero, suc, ◌≤◌, String, false, Option, none, some, inl, inr, arith, same, Bool-cases, leb,
}
use text.Mathlib.TextLemmas.{length-cons}
use nox_app.Store.Preview.{take_runes, fold_line, preview_for, preview_or_name, join_fields}

count-take_runes : (n : ℕ) (s : String) → count (take_runes n s) ≤ n
unfolding take_runes
count-take_runes zero s = omega arith
count-take_runes (suc n) String.[] = omega arith
count-take_runes (suc n) (String.◌∷◌ c s) =
    rw (length-cons c (take_runes n s)) (omega (arith, count-take_runes n s))

count-fold_line : (s : String) → count (fold_line s) ≤ 120
unfolding fold_line
count-fold_line s = elim (Bool-cases (leb (count (join_fields false false s)) 120)) [
  | inl h ↦ rw h (ground arith)
  | inr h ↦ rw h (count-take_runes 120 (join_fields false false s))
]

-- Whatever the body, the name of the file and the reading of the body are, a preview has 120 runes
-- at most.
pub count-preview_for :
    (text_body : String → Option String) (body name : String)
    → count (preview_for text_body body name) ≤ 120
unfolding preview_for
count-preview_for text_body body name = bound (text_body body)
  where
    bound : (o : Option String) → count (preview_or_name o name) ≤ 120
    bound none = count-fold_line name
    bound (some text) = elim (Bool-cases (same (fold_line text) "")) [
      | inl h ↦ rw h (count-fold_line name)
      | inr h ↦ rw h (count-fold_line text)
    ]
