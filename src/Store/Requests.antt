-- ===== src/Store/Requests.antt =====
-- internal/store/requests.go: the requests that an invite opens, and the ways each one is closed.
mod Opening
unfoldable pub use Opening.*
use Prim.Native.Nat.{Ordering}
use Prim.Native.String.{compare as text_compare, ◌++◌ as text_append}
use nox_app.Base.{
  ℕ, String, Bool, true, false, not, ◌&&◌, ◌||◌, Option, none, some, List, [], ◌∷◌, ◌++◌, map, ltb,
  leb, ◌==◌, if◌then◌else◌, same, is_none,
}
use nox_app.Sql.{select, update, count, where_rows, order_by}
use nox_app.Db.{Db, Outcome, allowed, denied, expired, cancelled, RequestRow, UserRow}
use nox_app.Tx.{
  Tx, pure, fail, ◌>>=◌, ◌>>◌, read, write, require, Error, Result, ok, err, device_unknown,
  token_invalid, token_expired, request_not_found, internal,
}
use nox_app.Store.Identity.{Entropy, Identity, zero_identity, is_user, device_owner_of}
use nox_app.Store.Tokens.{
  PairToken, is_token, unspent, exec_tokens, spend_token, bind_device, record_outcome, paired_by,
}

pub record Decision : Type 0 where
  pub request : PairRequest
  pub identity : Identity

abbrev pub person_of : Option UserRow → Tx Identity
person_of none = fail internal
person_of (some u) = pure (record { user_id = u.user_id; label = u.label; created = false })

-- An error of one kind turned into another.
abbrev pub refused_as : Error → Result (Unit {0} × Db) → Result (Unit {0} × Db)
refused_as e (ok r) = ok r
refused_as e (err token_invalid) = err e
refused_as e (err other) = err other

-- DecidePairRequest once the request is known to wait for this device.
unfoldable pub allow_request : PairRequest → String → ℕ → Tx Decision
allow_request r person now = do
  (λ db. refused_as request_not_found (spend_token r.token r.device_key now db))
  closed ← close_request r allowed now
  row ← read (λ db. select (is_user person) db.users)
  id ← person_of row
  (λ db. refused_as internal (bind_device r.device_key id.user_id r.platform now db))
  record_outcome r.token id
  pure (record { request = closed; identity = id })

unfoldable pub deny_request : PairRequest → ℕ → Tx Decision
deny_request r now = do
  closed ← close_request r denied now
  pure (record { request = closed; identity = zero_identity })

-- The refusal of a request that is not there, not this device's to answer, or no longer waiting.
unfoldable pub answerable : Option PairRequest → String → ℕ → Tx PairRequest
answerable none issuer now = fail request_not_found
answerable (some r) issuer now = do
  require (same r.issuer_key issuer && is_none r.outcome && ltb now r.expires_at) request_not_found
  pure r

unfoldable pub decide_pair_request : String → String → Bool → ℕ → Tx Decision
decide_pair_request id issuer allow now = do
  person ← read (device_owner_of issuer)
  require (not (same person "")) device_unknown
  found ← read (request_by_id id)
  r ← answerable found issuer now
  if allow then allow_request r person now else deny_request r now

-- The requests that a query lists, soonest deadline first.
abbrev pub sooner : RequestRow → RequestRow → Bool
sooner r s =
    ltb r.expires_at s.expires_at
    || (r.expires_at == s.expires_at
        && elim (text_compare r.request_id s.request_id) [ Ordering.lt ↦ true | _ ↦ false ])

unfoldable pub list_requests : (RequestRow → Bool) → Db → List PairRequest
list_requests p db = map scan_request (order_by sooner (where_rows p db.requests))

abbrev pub overdue_outcome : Outcome → ℕ → ℕ → Outcome
overdue_outcome otherwise expires_at now = if leb expires_at now then expired else otherwise

-- CancelPairRequest once the request is read: none when nothing waits for this key.
unfoldable pub cancel_found : Option PairRequest → String → ℕ → Tx (Option PairRequest)
cancel_found none key now = pure none
cancel_found (some r) key now =
    if same r.device_key key && is_none r.outcome
    then (do
      closed ← close_request r (overdue_outcome cancelled r.expires_at now) now
      pure (some closed))
    else pure none

unfoldable pub cancel_pair_request : String → String → ℕ → Tx (Option PairRequest)
cancel_pair_request t key now = do found ← read (request_by_token t); cancel_found found key now

abbrev pub outcome_or_missing : Option RequestRow → Result (Option Outcome)
outcome_or_missing none = err request_not_found
outcome_or_missing (some r) = ok r.outcome

unfoldable pub pair_request_outcome : String → Db → Result (Option Outcome)
pair_request_outcome id db = outcome_or_missing (select (has_id id) db.requests)

unfoldable pub waiting_pair_requests : String → ℕ → Db → List PairRequest
waiting_pair_requests issuer now =
    list_requests (λ r. same r.issuer_key issuer && waiting r && ltb now r.expires_at)

-- The loop that closes each request of a list, with the outcome that its deadline gives.
unfoldable pub close_each : Outcome → ℕ → List PairRequest → Tx (List PairRequest)
close_each otherwise now [] = pure []
close_each otherwise now (r ∷ rs) = do
  closed ← close_request r (overdue_outcome otherwise r.expires_at now) now
  rest ← close_each otherwise now rs
  pure (closed ∷ rest)

abbrev pub due : ℕ → RequestRow → Bool
due now r = waiting r && leb r.expires_at now

-- ExpirePairRequests, where `seen` is the database as the read pool showed it a moment before.
unfoldable pub expire_pair_requests : Db → ℕ → Tx (List PairRequest)
expire_pair_requests seen now =
    if count (due now) seen.requests == 0
    then pure []
    else (do rows ← read (list_requests (due now)); close_each expired now rows)

abbrev pub takes_part : String → RequestRow → Bool
takes_part key r = (same r.issuer_key key || same r.device_key key) && waiting r

unfoldable pub close_requests_of : String → ℕ → Tx (List PairRequest)
close_requests_of key now = do
  rows ← read (list_requests (takes_part key))
  close_each denied now rows
