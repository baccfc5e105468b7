-- ===== src/Server/Unpaired/Holds.antt =====
-- internal/server/unpaired.go: what every connection is held to, through any sequence of steps.
use nox_app.Base.{
  ℕ, suc, ◌+◌, ◌≤◌, ◌<◌, ◌≡◌, inl, inr, String, Bool, Option, none, some, List, same_refl, length,
  arith, Option-cases,
}
use nox_app.Sql.{select, count}
use nox_app.Sql.Laws.{select-meets, count_of_select}
use nox_app.Sql.Counts.{count-delete-le, count-delete_self}
use nox_app.Server.Entry.Laws.{length-delete, count-delete_one, select_again}
use nox_app.Server.Unpaired.{Strangers, is_conn, is_holder, is_wait, without_wait, let_go}

-- No connection has two holds, no request two holders, and the places are within their number.
pub record IsTidy (s : Strangers) : Type 0 where
  pub one_hold : (c : ℕ) → count (is_conn c) s.unpaired + count (is_holder c) s.waits ≤ 1
  pub one_holder : (r : String) → count (is_wait r) s.waits ≤ 1
  pub room : length s.unpaired ≤ s.max_unpaired
  pub some_place : 0 < s.max_unpaired

-- A connection that is held to nothing.
abbrev pub IsFree : ℕ → Strangers → Type 0
IsFree c s = count (is_conn c) s.unpaired + count (is_holder c) s.waits ≡ 0

holder_of :
    (c : ℕ) (w : String × ℕ) (waits : List (String × ℕ))
    → select (is_holder c) waits ≡ some w
    → w.1 ≡ c
holder_of c w waits h = ground (arith, select-meets (is_holder c) waits w h)

-- The waits without the one that a connection holds.
module _ (c : ℕ) (waits : List (String × ℕ))
    (one : (r : String) → count (is_wait r) waits ≤ 1) where
  count-without_wait :
      count (is_holder c) waits ≤ 1
      → count (is_holder c) (without_wait (select (is_holder c) waits) waits) ≡ 0
  count-without_wait h = elim (Option-cases (select (is_holder c) waits)) [
    | inl n ↦ rw n (count_of_select (is_holder c) waits n)
    | inr ((r, d), f) ↦ rw f (
        ground (
          arith,
          holder_of c (r, d) waits f,
          same_refl r,
          count-delete_one (is_wait r) (is_holder c) waits (r, d)
              (select_again (is_wait r) (is_holder c) waits (r, d) f (same_refl r) (one r)) (one r),
        ))
  ]

count-without_wait-le :
    (q : String × ℕ → Bool) (o : Option (String × ℕ)) (waits : List (String × ℕ))
    → count q (without_wait o waits) ≤ count q waits
count-without_wait-le q none waits = omega arith
count-without_wait-le q (some (r, d)) waits = count-delete-le q (is_wait r) waits

module _ (c : ℕ) (s : Strangers) (t : IsTidy s) where
  pub let_go-IsTidy : IsTidy (let_go c s)
  unfolding let_go
  let_go-IsTidy = record {
    one_hold = λ d. omega (
      arith,
      t.one_hold d,
      count-delete-le (is_conn d) (is_conn c) s.unpaired,
      count-without_wait-le (is_holder d) (select (is_holder c) s.waits) s.waits,
    );
    one_holder = λ r. omega (
      arith,
      t.one_holder r,
      count-without_wait-le (is_wait r) (select (is_holder c) s.waits) s.waits,
    );
    room = omega (arith, t.room, length-delete (is_conn c) s.unpaired);
    some_place = t.some_place;
  }

  pub let_go-IsFree : IsFree c (let_go c s)
  unfolding let_go
  let_go-IsFree = omega (
    arith,
    count-delete_self (is_conn c) s.unpaired,
    count-without_wait c s.waits t.one_holder (omega (arith, t.one_hold c)),
  )

  pub let_go-length :
      count (is_conn c) s.unpaired ≡ 1 → suc (length (let_go c s).unpaired) ≡ length s.unpaired
  unfolding let_go
  let_go-length h = omega (arith, h, length-delete (is_conn c) s.unpaired)

pub let_go-IsFree-other : (c d : ℕ) (s : Strangers) → IsFree d s → IsFree d (let_go c s)
unfolding let_go
let_go-IsFree-other c d s h = omega (
  arith,
  h,
  count-delete-le (is_conn d) (is_conn c) s.unpaired,
  count-without_wait-le (is_holder d) (select (is_holder c) s.waits) s.waits,
)
