-- ===== src/Store/Tests/Devices.antt =====
-- Revoking and answering run on a concrete store.
use nox_app.Base.{◌≡◌, refl, true, false, ◌⊎◌, some, key_dec, ne_of_same, arith}
use nox_app.Db.{denied}
use nox_app.Tx.{ok, err, device_unknown, request_not_found}
use nox_app.Sql.{select, update, delete, count, where_rows, place, order_by}
use nox_app.Store.Identity.{device_owner_of, resolve_identity, count_devices, insert_device}
use nox_app.Store.Tokens
use nox_app.Store.Requests
use nox_app.Store.Devices
use nox_app.Store.Calls.{history}
use nox_app.Store.Backing.Strangers.{IsRevoked, revoke_device-IsRevoked, unpaired-device_unknown}
use nox_app.Store.Answers.{IsAnswerable, outcome-decide_pair_request}
use nox_app.Store.Answers.Once.{decide_pair_request_once}
use nox_app.Store.Answers.Joined.{IsBound, allow-IsBound}
use nox_app.Store.Tests.{
  draw, home, after, home-IsBacked, home_named, some_calls, allowed_home, denied_home,
}

revoke_device-IsRevoked_example :
    IsRevoked "phone" (after (Devices.revoke_device_by "" "phone" 200) home)
unfolding key_dec select update delete count where_rows order_by place Devices.revoke_device_by
    Devices.check_caller Devices.remove_device Devices.delete_device Devices.void_invites
    Devices.void_stale_link Tokens.exec_tokens Requests.close_requests_of Requests.list_requests
    Requests.close_each Requests.close_request Requests.close_row count_devices
revoke_device-IsRevoked_example =
    revoke_device-IsRevoked "" "phone" 200 home
      (after (Devices.revoke_device_by "" "phone" 200) home) _ home-IsBacked (omega arith) refl

unpaired-device_unknown_example :
    (resolve_identity "laptop" 200 home ≡ err device_unknown)
    × (Tokens.issue_device_invite (draw "i") "laptop" 200 home ≡ err device_unknown)
    × (Requests.decide_pair_request "pr_1" "laptop" true 200 home ≡ err device_unknown)
    × (Devices.revoke_device_by "laptop" "phone" 200 home ≡ err device_unknown)
unfolding key_dec count
unpaired-device_unknown_example =
    unpaired-device_unknown "laptop" home (draw "i") "i" "pr_1" "phone" true 200 refl refl
      (ne_of_same "laptop" "" refl)

allow-IsBound_example :
    (r : Requests.PairRequest) × IsAnswerable "pr_1" "phone" 200 home r
    × IsBound r.device_key (device_owner_of "phone" home) home allowed_home
unfolding key_dec select update delete count where_rows Requests.decide_pair_request
    Requests.answerable Requests.allow_request Requests.close_request Requests.close_row
    Requests.request_by_id device_owner_of Tokens.spend_token Tokens.bind_device Tokens.exec_tokens
    Tokens.record_outcome insert_device
allow-IsBound_example = allow-IsBound "pr_1" "phone" 200 home allowed_home _ home_named refl

outcome-decide_pair_request_example :
    (r : Requests.PairRequest) × IsAnswerable "pr_1" "phone" 200 home r
    × (Requests.pair_request_outcome "pr_1" denied_home ≡ ok (some denied))
unfolding key_dec select update delete count where_rows Requests.decide_pair_request
    Requests.answerable Requests.deny_request Requests.close_request Requests.close_row
    Requests.request_by_id device_owner_of Tokens.spend_token Tokens.exec_tokens
outcome-decide_pair_request_example =
    outcome-decide_pair_request "pr_1" "phone" false 200 home denied_home _ refl

decide_pair_request_once_example :
    (Requests.decide_pair_request "pr_1" "phone" true 960 (history denied_home some_calls)
      ≡ err request_not_found)
    ⊎ (Requests.decide_pair_request "pr_1" "phone" true 960 (history denied_home some_calls)
        ≡ err device_unknown)
unfolding key_dec select update delete count where_rows Requests.decide_pair_request
    Requests.answerable Requests.deny_request Requests.close_request Requests.close_row
    Requests.request_by_id device_owner_of Tokens.spend_token Tokens.exec_tokens
decide_pair_request_once_example =
    decide_pair_request_once "pr_1" "phone" "phone" false true 200 960 home denied_home _ some_calls
      refl
