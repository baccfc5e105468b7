-- ===== src/Store/Tests/Pairs.antt =====
-- Presenting a token run on a concrete store.
use nox_app.Base.{◌≡◌, refl, true, false, key_dec, ne_of_same, arith}
use nox_app.Db.{Db}
use nox_app.Tx.{ok, err, token_invalid}
use nox_app.Sql.{select, update, delete, count, where_rows}
use nox_app.Store.Identity.{device_owner_of, count_people, insert_device}
use nox_app.Store.Tokens
use nox_app.Store.Requests
use nox_app.Store.Pairing.{pair, pair_kind}
use nox_app.Store.Calls.Quiet.{IsQuiet, pair-IsQuiet}
use nox_app.Store.Replay.{pair-replay, pair_by_another}
use nox_app.Store.Tests.{draw, phone, home, after, home_named}

pair-IsQuiet_example : IsQuiet home (after (pair (draw "x") "invite" "tablet" "ios" 200) home)
unfolding key_dec select update delete count where_rows pair pair_kind Tokens.read_token
    Requests.request_by_invite Requests.request_by_token Requests.repeat_request
    Requests.repeat_outcome
pair-IsQuiet_example =
    pair-IsQuiet (draw "x") "invite" "tablet" "ios" 200 home
      (after (pair (draw "x") "invite" "tablet" "ios" 200) home)
      (Tokens.invite_row "invite" phone 100) _ refl refl refl

-- The store after a laptop joins by the machine link.
abbrev pub joined_home : Db
joined_home = after (pair (draw "y") "link" "laptop" "linux" 200) home

abbrev laptop_result : Requests.PairResult
laptop_result = record Requests.zero_result {
  paired = true;
  identity = record { user_id = "u_1"; label = "User0042"; created = false };
  joined = true;
}

joined_run : pair (draw "y") "link" "laptop" "linux" 200 home ≡ ok (laptop_result, joined_home)
unfolding key_dec select update count pair pair_kind Tokens.read_token Tokens.pair_by_machine_link
    Tokens.paired_by Tokens.join_by_machine_link Tokens.spend_token Tokens.exec_tokens
    Tokens.resolve_sole_person count_people Tokens.sole_user Tokens.bind_device device_owner_of
    insert_device Tokens.record_outcome
joined_run = refl

pair-replay_example :
    pair (draw "z") "link" "laptop" "linux" 900 joined_home
    ≡ ok (record laptop_result { joined = false }, joined_home)
unfolding key_dec select
pair-replay_example =
    pair-replay (draw "y") (draw "z") "link" "laptop" "linux" "linux" 200 900 home joined_home
      (Tokens.link_row "link" 100) laptop_result home_named refl refl refl
      (ne_of_same "u_1" "" refl) joined_run

pair_by_another_example : pair (draw "z") "link" "tablet" "ios" 900 joined_home ≡ err token_invalid
unfolding key_dec select count
pair_by_another_example =
    pair_by_another (draw "y") (draw "z") "link" "laptop" "tablet" "linux" "ios" 200 900 home
      joined_home (Tokens.link_row "link" 100) laptop_result home_named (omega arith) refl refl refl
      (ne_of_same "tablet" "laptop" refl) joined_run
