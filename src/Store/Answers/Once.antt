-- ===== src/Store/Answers/Once.antt =====
-- internal/store/requests.go: answering a request that was answered.
use nox_app.Base.{ℕ, String, ◌≡◌, Bool, List, arith, ◌⊎◌, if◌then◌else◌}
use nox_app.Db.{Db, Outcome, allowed, denied}
use nox_app.Tx.{ok, err, device_unknown, request_not_found}
use nox_app.Store.Requests.{
  Decision, decide_pair_request, answerable, request_by_id, pair_request_outcome,
}
use nox_app.Store.Answers.{outcome-decide_pair_request}
use nox_app.Store.Finality.{IsClosed}
use nox_app.Store.Finality.Requests.{history-IsClosed}
use nox_app.Store.Calls.{Call, history}

refused_when_closed :
    (id : String) (o : Outcome) (issuer : String) (allow : Bool) (now : ℕ) (db : Db)
    → IsClosed id o db
    → (decide_pair_request id issuer allow now db ≡ err request_not_found)
      ⊎ (decide_pair_request id issuer allow now db ≡ err device_unknown)
unfolding decide_pair_request answerable request_by_id pair_request_outcome
refused_when_closed id o issuer allow now db h = ground arith

-- After an answer to a request that succeeds, and whatever pairing calls come next, any answer to that
-- request, by whomever and whenever, is refused: as a request that is not found, or since the
-- answering device is unknown.
pub decide_pair_request_once :
    (id issuer issuer' : String) (allow allow' : Bool) (now later : ℕ) (db db' : Db) (d : Decision)
    (cs : List Call)
    → decide_pair_request id issuer allow now db ≡ ok (d, db')
    → (decide_pair_request id issuer' allow' later (history db' cs) ≡ err request_not_found)
      ⊎ (decide_pair_request id issuer' allow' later (history db' cs) ≡ err device_unknown)
decide_pair_request_once id issuer issuer' allow allow' now later db db' d cs e =
    let closed = (outcome-decide_pair_request id issuer allow now db db' d e).2 in
    let o = if allow then allowed else denied in
    refused_when_closed id o issuer' allow' later (history db' cs)
      (history-IsClosed id o db' cs closed)
