-- ===== src/Server/Unpaired.antt =====
-- internal/server/unpaired.go: the connections of keys that nobody paired, their places and their
-- waits. A connection is its number; its place and its wait are the entries that name it, and a timer
-- is the number of the hold it was armed for.
pub mod Holds
pub mod Steps
pub mod Promises
use nox_app.Base.{
  ℕ, zero, suc, ◌+◌, String, Bool, true, false, not, ◌&&◌, ◌||◌, Option, none, some, List, [], ◌∷◌,
  ◌++◌, ltb, leb, ◌==◌, if◌then◌else◌, same, is_none, length,
}
use nox_app.Sql.{select, delete}

abbrev pub default_max_unpaired : ℕ
default_max_unpaired = 32

-- What mu guards of it: the places, oldest first, the waits by request, and each connection's holdGen.
pub record Strangers : Type 0 where
  pub max_unpaired : ℕ
  pub unpaired : List ℕ
  pub waits : List (String × ℕ)
  pub hold_gen : ℕ → ℕ

abbrev pub is_conn : ℕ → ℕ → Bool
is_conn c d = d == c

abbrev pub is_holder : ℕ → String × ℕ → Bool
is_holder c w = w.1 == c

abbrev pub is_wait : String → String × ℕ → Bool
is_wait r w = same w.0 r

abbrev pub moved_on : ℕ → (ℕ → ℕ) → ℕ → ℕ
moved_on c gen d = if d == c then suc (gen d) else gen d

abbrev pub without_wait : Option (String × ℕ) → List (String × ℕ) → List (String × ℕ)
without_wait none waits = waits
without_wait (some (r, _)) waits = delete (is_wait r) waits

unfoldable pub let_go : ℕ → Strangers → Strangers
let_go c s = record s {
  unpaired = delete (is_conn c) s.unpaired;
  waits = without_wait (select (is_holder c) s.waits) s.waits;
  hold_gen = moved_on c s.hold_gen;
}

-- armLocked: the number that the new timer carries is the connection's holdGen after it.
unfoldable pub arm : ℕ → Strangers → Strangers
arm c s = record s { hold_gen = moved_on c s.hold_gen }

abbrev pub is_full : Strangers → Bool
is_full s = ltb 0 (length s.unpaired) && leb s.max_unpaired (length s.unpaired)

-- The loop of placeUnpairedLocked, with the connections it takes out. `none` is fuel that ran out.
unfoldable pub make_room : ℕ → Strangers → Option (Strangers × List ℕ)
make_room zero s = none
make_room (suc fuel) s =
    let round : Option (Strangers × List ℕ) = elim s.unpaired [
      | [] ↦ some (s, [])
      | oldest ∷ _ ↦ elim (make_room fuel (let_go oldest s)) [
        | none ↦ none
        | some (s', cut) ↦ some (s', oldest ∷ cut)
      ]
    ] in
    if is_full s then round else some (s, [])

unfoldable pub take_place : ℕ → Strangers → Strangers
take_place c s = arm c (record s { unpaired = s.unpaired ++ c ∷ [] })

-- placeUnpairedLocked, and the connections for the caller to close.
unfoldable pub place_unpaired : ℕ → Strangers → Option (Strangers × List ℕ)
place_unpaired c s = elim (make_room (suc (length s.unpaired)) s) [
  | none ↦ none
  | some (s', cut) ↦ some (take_place c s', cut)
]

abbrev pub is_held : ℕ → Strangers → Bool
is_held c s =
    not (is_none (select (is_conn c) s.unpaired) && is_none (select (is_holder c) s.waits))

abbrev pub let_go_of : Option (String × ℕ) → Strangers → Strangers
let_go_of none s = s
let_go_of (some (_, left)) s = let_go left s

abbrev pub left_by : Option (String × ℕ) → Option ℕ
left_by none = none
left_by (some (_, left)) = some left

unfoldable pub take_wait : String → ℕ → Strangers → Strangers
take_wait r c s = arm c (record s { waits = (r, c) ∷ delete (is_wait r) s.waits })

-- awaitAnswer, up to its read of the request: the wait, and the connection that had it.
unfoldable pub await_answer : String → ℕ → Strangers → Strangers × Option ℕ
await_answer r c s =
    let free = let_go c s in
    let holder = select (is_wait r) free.waits in
    if is_held c s then (take_wait r c (let_go_of holder free), left_by holder) else (s, none)

-- endWait, of a request that was allowed or not: the connections to close.
unfoldable pub end_wait : String → Bool → Strangers → Option (Strangers × List ℕ)
end_wait r allowed s = elim (select (is_wait r) s.waits) [
  | none ↦ some (s, [])
  | some (_, holder) ↦
      let free = let_go holder s in
      let placed = place_unpaired holder free in if allowed then some (free, []) else placed
]

-- outOfTime, of a timer armed for the hold `gen`: whether it closes the connection.
unfoldable pub out_of_time : ℕ → ℕ → Strangers → Strangers × Bool
out_of_time c gen s = if s.hold_gen c == gen then (let_go c s, true) else (s, false)
