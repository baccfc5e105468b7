-- ===== src/Server/Tests/Places.antt =====
-- Tests of internal/server/unpaired.go: two connections, one place, and a wait.
use nox_app.Base.{ℕ, ◌≡◌, refl, false, [], is_none, arith}
use nox_app.Sql.{count}
use nox_app.Server.Unpaired.{Strangers, place_unpaired, make_room, take_place, await_answer}
use nox_app.Server.Unpaired.Holds.{IsTidy}
use nox_app.Server.Unpaired.Promises.{
  no_strangers, StrangersReached, started, held, waited, StrangersReached-IsTidy,
}

abbrev one_held : Strangers
one_held = take_place 1 (no_strangers 1)

one_reached : StrangersReached one_held
unfolding place_unpaired make_room count
one_reached =
    held 1 {s = no_strangers 1} {s' = one_held} {cut = []} (started 1 (omega arith)) refl refl

-- The connection that has the only place waits for the answer to its request.
StrangersReached-IsTidy_example :
    IsTidy (await_answer "r1" 1 one_held).0
    × ((c : ℕ) → is_none (place_unpaired c (await_answer "r1" 1 one_held).0) ≡ false)
StrangersReached-IsTidy_example =
    StrangersReached-IsTidy (await_answer "r1" 1 one_held).0
      (waited "r1" 1 {s = one_held} one_reached)
