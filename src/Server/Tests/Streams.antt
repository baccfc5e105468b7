-- ===== src/Server/Tests/Streams.antt =====
-- Tests of internal/server/tokens.go and internal/hub: histories of tokens and of a hub.
use nox_app.Base.{
  ℕ, ◌+◌, ◌≤◌, ◌≡◌, refl, Bool, true, false, String, Option, none, some, List, [], ◌∷◌, ◌++◌, arith,
  length,
}
use nox_app.Sql.{count, select}
use nox_app.Server.TransferTokens.{token_ttl}
use nox_app.Server.TransferTokens.{upload, download, issue, consume, issued, consumed, run_calls}
use nox_app.Server.TransferTokens.Once.{consume-once}
use nox_app.Server.TransferTokens.Latest.{consume-latest}
use nox_app.Server.Hub.{
  Envelope, Hub, is_sub, step, register, new_hub, Event, joins, leaves, casts, reads, run,
}
use nox_app.Server.Hub.Alone.{seen_by, run_alone, seen_by-run}
use nox_app.Server.Hub.Streams.{live, delivered, cast_in, keeps_up, delivered-run}

-- A download token is redeemed, and again after an upload of the same file was asked for.
consume-once_example :
    (consume "t1" download 20 (
      run_calls
        (issued "t2" "photo" upload 0 15 ∷ consumed "t2" upload 16 ∷ [])
        (consume "t1" download 10 (issue "t1" "photo" download 0 5 [])).0)).1
    ≡ none
unfolding issue nox_app.Base.key_dec
consume-once_example =
    consume-once "t1" download download 10 20 (issue "t1" "photo" download 0 5 [])
      (issued "t2" "photo" upload 0 15 ∷ consumed "t2" upload 16 ∷ []) (refl, (tt, tt))

abbrev asked : String
asked = "t2"

abbrev from_byte : ℕ
from_byte = 512

-- An upload is continued from byte 512 with the token issued last.
consume-latest_example : (asked ≡ asked) × (from_byte ≡ from_byte) × (40 ≤ 30 + token_ttl)
unfolding issue consume run_calls nox_app.Base.key_dec select nox_app.Sql.delete
consume-latest_example =
    consume-latest "photo" asked from_byte 30 asked from_byte 40 (issue "t1" "photo" upload 0 5 [])
      (issued "t3" "photo" download 0 35 ∷ []) (refl, tt) refl

abbrev greeting : Envelope
greeting = record { author_id = "anna"; full = "full"; stripped = "stripped" }

abbrev house_hub : Hub
house_hub = run (joins 1 ∷ joins 2 ∷ []) new_hub

abbrev evening : List Event
evening = casts greeting ∷ reads 2 ∷ leaves 1 ∷ casts greeting ∷ []

house_set : (id : ℕ) → count (is_sub id) house_hub.subs ≤ 1
unfolding run step register select count
house_set id = ground arith

seen_by-run_example : seen_by 2 (run evening house_hub) ≡ run_alone 2 evening (seen_by 2 house_hub)
seen_by-run_example = seen_by-run 2 evening house_hub house_set

delivered-run_example :
    (left : List Envelope) × (seen_by 2 (run evening house_hub) ≡ live left)
    × (delivered 2 evening house_hub ++ left ≡ [] ++ cast_in evening)
unfolding seen_by run keeps_up select
delivered-run_example = delivered-run 2 evening house_hub [] house_set refl refl
