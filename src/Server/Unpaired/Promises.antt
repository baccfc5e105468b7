-- ===== src/Server/Unpaired/Promises.antt =====
-- internal/server/unpaired.go: what the strangers' limits promise.
use nox_app.Base.{
  ℕ, suc, ◌<◌, ◌≡◌, inl, inr, String, Bool, false, some, List, [], ◌==◌, is_none, length, arith,
  Bool-cases,
}
use nox_app.Sql.{count}
use nox_app.Server.Unpaired.{Strangers, let_go, place_unpaired, await_answer, end_wait, out_of_time}
use nox_app.Server.Unpaired.Holds.{IsTidy, IsFree, let_go-IsTidy}
use nox_app.Server.Unpaired.Steps.{
  place_unpaired-IsTidy, make_room-returns, await_answer-IsTidy, end_wait-IsTidy,
}

-- A server that has just started, with so many places.
abbrev pub no_strangers : ℕ → Strangers
no_strangers n = record { max_unpaired = n; unpaired = []; waits = []; hold_gen = λ c. 0 }

-- The strangers through time: a new connection is held, one is let go of - it paired or it ended -,
-- one waits for the answer to a request, a request closes, and a timer fires.
pub data StrangersReached : Strangers → Type 0 where
  started : (n : ℕ) → 0 < n → StrangersReached (no_strangers n)
  held :
      (c : ℕ) {s s' : Strangers} {cut : List ℕ}
      → StrangersReached s
      → IsFree c s
      → place_unpaired c s ≡ some (s', cut)
      → StrangersReached s'
  freed : (c : ℕ) {s : Strangers} → StrangersReached s → StrangersReached (let_go c s)
  waited :
      (r : String) (c : ℕ) {s : Strangers}
      → StrangersReached s
      → StrangersReached (await_answer r c s).0
  closed :
      (r : String) (allowed : Bool) {s s' : Strangers} {cut : List ℕ}
      → StrangersReached s
      → end_wait r allowed s ≡ some (s', cut)
      → StrangersReached s'
  fired :
      (c gen : ℕ) {s : Strangers} → StrangersReached s → StrangersReached (out_of_time c gen s).0

out_of_time-IsTidy : (c gen : ℕ) (s : Strangers) → IsTidy s → IsTidy (out_of_time c gen s).0
unfolding out_of_time
out_of_time-IsTidy c gen s t = elim (Bool-cases (s.hold_gen c == gen)) [
  | inl y ↦ rw (out_of_time, y) (let_go-IsTidy c s t)
  | inr n ↦ rw (out_of_time, n) t
]

no_strangers-IsTidy : (n : ℕ) → 0 < n → IsTidy (no_strangers n)
unfolding count
no_strangers-IsTidy n h = record {
  one_hold = λ c. omega arith;
  one_holder = λ r. omega arith;
  room = omega arith;
  some_place = h;
}

reached-IsTidy : (s : Strangers) → StrangersReached s → IsTidy s
reached-IsTidy s (started n h) = no_strangers-IsTidy n h
reached-IsTidy s (held c {s = d} {cut = cut} r f h) =
    place_unpaired-IsTidy c d s cut (reached-IsTidy d r) f h
reached-IsTidy s (freed c {s = d} r) = let_go-IsTidy c d (reached-IsTidy d r)
reached-IsTidy s (waited q c {s = d} r) = await_answer-IsTidy q c d (reached-IsTidy d r)
reached-IsTidy s (closed q allowed {s = d} {cut = cut} r h) =
    end_wait-IsTidy q allowed d s cut (reached-IsTidy d r) h
reached-IsTidy s (fired c gen {s = d} r) = out_of_time-IsTidy c gen d (reached-IsTidy d r)

-- However connections of unpaired keys come, wait, are answered, run out of time and leave, each has
-- one hold at most - a place or a wait, never both -, each request that waits has one connection,
-- there are no more places taken than there may be, and room for another connection can be made.
pub StrangersReached-IsTidy :
    (s : Strangers)
    → StrangersReached s
    → IsTidy s × ((c : ℕ) → is_none (place_unpaired c s) ≡ false)
unfolding place_unpaired
StrangersReached-IsTidy s r =
    let t = reached-IsTidy s r in
    (t, λ c. ground (arith, make_room-returns (suc (length s.unpaired)) s t (omega arith)))
