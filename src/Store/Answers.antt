-- ===== src/Store/Answers.antt =====
-- internal/store/requests.go: DecidePairRequest, the request it answers and the tables after it.
pub mod Joined
pub mod Once
use nox_app.Base.{
  ℕ, ◌<◌, String, ◌≡◌, ◌≢◌, refl, ap, sym, ◌∙◌, subst, Bool, true, false, Option, none, some, List,
  [], ◌∷◌, ◌++◌, arith, All, if◌then◌else◌, same, same→eq, same_refl, ◌⊎◌, inl, inr, Option-cases,
}
use nox_app.Sql.{select, update, count}
use nox_app.Sql.Laws.{
  select-update, select-append, select-meets, touched, on_row, or_row, select_of_count,
  count_of_select, All-select,
}
use nox_app.Db.{Db, Outcome, allowed, denied, DeviceRow, UserRow, RequestRow}
use nox_app.Tx.{
  Tx, Error, Result, ok, err, pure, read, ◌>>=◌, ◌>>◌, token_invalid, request_not_found, internal,
}
use nox_app.Tx.Within.{>>=-eq-ok}
use nox_app.Store.Identity.{Identity, zero_identity, device_owner_of, is_device, is_user}
use nox_app.Store.Tokens.{spend_token, bind_device, record_outcome}
use nox_app.Store.Requests.{
  PairRequest, Decision, has_id, waiting, request_by_id, close_request, allow_request, deny_request,
  decide_pair_request, answerable, person_of, refused_as, pair_request_outcome, scan_request,
  scanned,
}
use nox_app.Store.Effects.{
  after_spend, after_outcome, after_close, after_bind, closable, closed_row, closed_rows,
}

-- What a request must be for its answer to count.
pub record IsAnswerable (id issuer : String) (now : ℕ) (db : Db) (r : PairRequest) : Type 0 where
  pub found : request_by_id id db ≡ some r
  pub addressed : r.issuer_key ≡ issuer
  pub still_waiting : r.outcome ≡ none
  pub in_time : now < r.expires_at
  pub answerer_paired : device_owner_of issuer db ≢ ""

abbrev answer : Bool → PairRequest → String → ℕ → Tx Decision
answer allow r person now = if allow then allow_request r person now else deny_request r now

pub decided :
    (id issuer : String) (allow : Bool) (now : ℕ) (db db' : Db) (d : Decision)
    → decide_pair_request id issuer allow now db ≡ ok (d, db')
    → (r : PairRequest) × IsAnswerable id issuer now db r
      × (answer allow r (device_owner_of issuer db) now db ≡ ok (d, db'))
unfolding decide_pair_request answerable
decided id issuer allow now db db' d e = elim (Option-cases (request_by_id id db)) [
  | inl missing ↦ absurd (ground arith)
  | inr (r, there) ↦ (
    r,
    record {
      found = there;
      addressed = ground arith;
      still_waiting = ground arith;
      in_time = ground arith;
      answerer_paired = ground arith;
    },
    ground arith,
  )
]

renamed_ok :
    (x : Error) (res : Result (Unit {0} × Db)) (a : Unit {0}) (db : Db)
    → refused_as x res ≡ ok (a, db)
    → res ≡ ok (a, db)
renamed_ok x (ok _) a db e = e
renamed_ok x (err token_invalid) a db e = cc
renamed_ok x (err _) a db e = cc

-- The tables after an Allow: the request is closed as it would be by itself, and the device is
-- bound to the person who is read.
pub record IsAllowed (r : PairRequest) (person : String) (now : ℕ) (db db' : Db) : Type 0 where
  pub user : UserRow
  pub read_user : select (is_user person) db.users ≡ some user
  pub requests : db'.requests ≡ closed_rows r.request_id allowed now db.requests
  pub users : db'.users ≡ db.users
  pub before : Db
  pub before_devices : before.devices ≡ db.devices
  pub bound :
      bind_device r.device_key user.user_id r.platform now before
      ≡ ok (tt, record before { devices = db'.devices })

module _ (r : PairRequest) (person : String) (now : ℕ) where
  finish : PairRequest → Identity → Tx Decision
  finish closed id = record_outcome r.token id >> pure (record { request = closed; identity = id })

  bind : PairRequest → Identity → Tx Decision
  bind closed id =
      (λ db. refused_as internal (bind_device r.device_key id.user_id r.platform now db))
      >> finish closed id

  identify : PairRequest → Option UserRow → Tx Decision
  identify closed row = person_of row >>= bind closed

  look : PairRequest → Tx Decision
  look closed = read (λ db. select (is_user person) db.users) >>= identify closed

  close : Tx Decision
  close = close_request r allowed now >>= look

  pub after_allow :
      (db db' : Db) (d : Decision)
      → allow_request r person now db ≡ ok (d, db')
      → IsAllowed r person now db db'
  unfolding allow_request finish bind identify look close
  after_allow db db' d e =
      let (s, db₁, spend, e₁) =
        >>=-eq-ok (λ db. refused_as request_not_found (spend_token r.token r.device_key now db))
          (λ _. close) db d db' e in
      let (c, db₂, closes, e₂) = >>=-eq-ok (close_request r allowed now) look db₁ d db' e₁ in
      let w₁ =
        (after_spend db db₁ r.token r.device_key now s
          (renamed_ok request_not_found _ s db₁ spend)).0 in
      let w₂ = (after_close db₁ db₂ r allowed now c closes).0 in
      elim (Option-cases (select (is_user person) db₂.users)) [
        | inl missing ↦ absurd (ground arith)
        | inr (u, there) ↦
            let id : Identity = record { user_id = u.user_id; label = u.label; created = false } in
            let e₃ : bind c id db₂ ≡ ok (d, db') = ground arith in
            let (b, db₃, binds, e₄) =
              >>=-eq-ok
                (λ db. refused_as internal (bind_device r.device_key u.user_id r.platform now db))
                (λ _. finish c id) db₂ d db' e₃ in
            let (o, db₄, records, e₅) =
              >>=-eq-ok (record_outcome r.token id)
                (λ _. pure (record { request = c; identity = id })) db₃ d db' e₄ in
            let bound = renamed_ok internal _ b db₃ binds in
            let w₃ = (after_bind db₂ db₃ r.device_key u.user_id r.platform now b bound).1 in
            let w₄ = after_outcome db₃ db₄ r.token id o records in
            record {
              user = u;
              read_user = ground arith;
              requests = ground arith;
              users = ground arith;
              before = db₂;
              before_devices = ground arith;
              bound = ground arith;
            }
      ]

id_of_found :
    (id : String) (db : Db) (r : PairRequest) → request_by_id id db ≡ some r → r.request_id ≡ id
unfolding request_by_id
id_of_found id db r e = elim (Option-cases (select (has_id id) db.requests)) [
  | inl missing ↦ absurd (ground arith)
  | inr (row, hit) ↦
      let met = same→eq row.request_id id (select-meets (has_id id) db.requests row hit) in
      ground arith
]

-- A waiting request whose row is closed has the outcome that it was closed with.
outcome-closed_rows :
    (r : PairRequest) (o : Outcome) (now : ℕ) (db db' : Db)
    → request_by_id r.request_id db ≡ some r
    → r.outcome ≡ none
    → db'.requests ≡ closed_rows r.request_id o now db.requests
    → pair_request_outcome r.request_id db' ≡ ok (some o)
unfolding request_by_id pair_request_outcome
outcome-closed_rows r o now db db' there open_one rows =
    let seen =
      select-update (has_id r.request_id) (closable r.request_id) (closed_row o now) db.requests
        (λ x. refl) in
    elim (Option-cases (select (has_id r.request_id) db.requests)) [
      | inl missing ↦ absurd (ground arith)
      | inr (row, hit) ↦
          let met = select-meets (has_id r.request_id) db.requests row hit in rw rows (ground arith)
    ]

closed_as :
    (id issuer : String) (now : ℕ) (db db' : Db) (d : Decision) (r : PairRequest)
    → IsAnswerable id issuer now db r
    → (allow : Bool) → answer allow r (device_owner_of issuer db) now db ≡ ok (d, db')
    → pair_request_outcome id db' ≡ ok (some (if allow then allowed else denied))
unfolding deny_request
closed_as id issuer now db db' d r fit true e =
    let same_id = id_of_found id db r fit.found in
    let done = after_allow r (device_owner_of issuer db) now db db' d e in
    subst (λ i. pair_request_outcome i db' ≡ ok (some allowed)) same_id
      (outcome-closed_rows r allowed now db db'
        (subst (λ i. request_by_id i db ≡ some r) (sym same_id) fit.found) fit.still_waiting
        done.requests)
closed_as id issuer now db db' d r fit false e =
    let same_id = id_of_found id db r fit.found in
    let (c, db₁, closes, rest) =
      >>=-eq-ok (close_request r denied now)
        (λ c. pure (record { request = c; identity = zero_identity })) db d db' e in
    let rows = (after_close db db₁ r denied now c closes).0 in
    subst (λ i. pair_request_outcome i db' ≡ ok (some denied)) same_id
      (outcome-closed_rows r denied now db db'
        (subst (λ i. request_by_id i db ≡ some r) (sym same_id) fit.found) fit.still_waiting
        (ground arith))

-- An Allow or a Deny that succeeds was about a request that its issuer, a paired device, could
-- answer, waiting and in time; after it the request is closed with that answer.
pub outcome-decide_pair_request :
    (id issuer : String) (allow : Bool) (now : ℕ) (db db' : Db) (d : Decision)
    → decide_pair_request id issuer allow now db ≡ ok (d, db')
    → (r : PairRequest) × IsAnswerable id issuer now db r
      × (pair_request_outcome id db' ≡ ok (some (if allow then allowed else denied)))
outcome-decide_pair_request id issuer allow now db db' d e =
    let (r, fit, answered) = decided id issuer allow now db db' d e in
    (r, fit, closed_as id issuer now db db' d r fit allow answered)
