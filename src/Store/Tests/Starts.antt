-- ===== src/Store/Tests/Starts.antt =====
-- Histories of calls and starts run on a concrete store.
use nox_app.Base.{
  ◌≡◌, refl, subst, some_inj, true, false, none, some, List, [], ◌∷◌, key_dec, length,
}
use nox_app.Db.{Db, denied}
use nox_app.Tx.{ok}
use nox_app.Sql.{select, update, delete, count, where_rows}
use nox_app.Store.Identity.{count_people, device_owner_of, insert_device}
use nox_app.Store.Tokens
use nox_app.Store.Requests
use nox_app.Store.Pairing.{pair, pair_kind}
use nox_app.Store.Calls.{resolves, issues, decides, revokes}
use nox_app.Store.Finality.{IsClosed, IsSpent}
use nox_app.Store.ServerKey.{
  same_bytes, ensure_server_identity, mint_server_identity, server_key, server_key_of, reconcile,
  decode_server_public_key,
}
use nox_app.Store.Starts.{Event, called, ensures, journals, reads_key, life, is_rekeyed, replaced}
use nox_app.Store.Starts.Final.{life-IsSpent, life-IsClosed}
use nox_app.Store.Starts.Machine.{ensure_server_identity_again}
use nox_app.Store.Tests.{draw, fresh, home, after, denied_home}
use nox_app.Store.Tests.Histories.{joined_home}
use nox_app.Store.Tests.Machine.{key_of, codec, keys, made, machine_row, known}

-- The machine whose public key is that of its private one.
abbrev settled : Db
settled = record home { server_identity = some (record machine_row { public_key = "seven" }) }

abbrev some_events : List Event
some_events =
    called (resolves "phone" 150)
    ∷ called (decides "pr_1" "phone" true 170)
    ∷ ensures codec keys
    ∷ journals (draw "j")
    ∷ reads_key codec keys settled
    ∷ called (issues (draw "b") 180)
    ∷ called (revokes "phone" "laptop" 950)
    ∷ []

not_rekeyed : (db : Db) → is_rekeyed db some_events ≡ false
unfolding key_dec same_bytes is_rekeyed replaced server_key server_key_of reconcile
    decode_server_public_key
not_rekeyed db = refl

life-IsClosed_example : IsClosed "pr_1" denied (life denied_home some_events)
unfolding key_dec select update delete count where_rows Requests.pair_request_outcome
    Requests.decide_pair_request Requests.answerable Requests.deny_request Requests.close_request
    Requests.close_row Requests.request_by_id device_owner_of Tokens.spend_token Tokens.exec_tokens
life-IsClosed_example =
    life-IsClosed "pr_1" denied denied_home some_events (not_rekeyed denied_home) refl

life-IsSpent_example : IsSpent "link" 200 (some "laptop") (life joined_home some_events)
unfolding key_dec select update count pair pair_kind Tokens.read_token Tokens.pair_by_machine_link
    Tokens.paired_by Tokens.join_by_machine_link Tokens.spend_token Tokens.exec_tokens
    Tokens.resolve_sole_person count_people Tokens.sole_user Tokens.bind_device device_owner_of
    insert_device Tokens.record_outcome
life-IsSpent_example =
    life-IsSpent "link" 200 (some "laptop") joined_home some_events (not_rekeyed joined_home) refl

abbrev first_start : Db
first_start = after (ensure_server_identity codec keys) fresh

ensure_server_identity_again_example :
    ensure_server_identity codec (record keys { generated = none }) (life first_start some_events)
    ≡ ok (key_of 7, life first_start some_events)
unfolding key_dec same_bytes ensure_server_identity mint_server_identity count_people
ensure_server_identity_again_example =
    ensure_server_identity_again codec keys (record keys { generated = none }) fresh first_start
      (key_of 7) some_events
      (λ p e.
        subst (λ q. codec.decode (codec.encode q.public_key) ≡ some q.public_key)
          (some_inj made p e) known)
      (λ p e. subst (λ q. length q.public_key ≡ 32) (some_inj made p e) refl) refl
      (not_rekeyed first_start)
