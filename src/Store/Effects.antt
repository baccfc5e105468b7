-- ===== src/Store/Effects.antt =====
-- What each write of the store does to the tables when it succeeds.
use nox_app.Base.{
  ℕ, ◌+◌, ◌<◌, ◌≢◌, String, ◌≡◌, Bool, false, ◌&&◌, some, List, [], ◌∷◌, ◌++◌, arith, length, ◌⊎◌,
}
use nox_app.Sql.{select, update, count}
use nox_app.Db.{Db, Outcome, DeviceRow, TokenRow, RequestRow}
use nox_app.Tx.{ok}
use nox_app.Store.Identity.{
  Entropy, Identity, is_device, is_user, device_owner_of, insert_user, insert_device, person_row,
}
use nox_app.Store.Tokens.{
  PairToken, MachineLink, is_token, unspent, open_machine, exec_tokens, insert_token,
  new_token_value, insert_machine_link, invite_row, issue_device_invite, spend_token, bind_device,
  record_outcome, link_row, token_ttl_seconds,
}
use nox_app.Store.Requests.{
  PairRequest, PairResult, has_id, of_token, waiting, insert_request, close_row, close_request,
  opened_request, request_row, open_request,
}

-- The row and the token as the two statements of closeRequest leave them.
abbrev pub spendable : String → TokenRow → Bool
spendable t r = is_token t r && unspent r

abbrev pub spent_row : String → ℕ → TokenRow → TokenRow
spent_row key now r = record r { used_at = some now; used_by = some key }

abbrev pub spent_tokens : String → String → ℕ → List TokenRow → List TokenRow
spent_tokens t key now = update (spendable t) (spent_row key now)

-- The row as recordOutcome leaves it.
abbrev pub outcome_row : Identity → TokenRow → TokenRow
outcome_row id r = record r { paired_user_id = some id.user_id; created_person = id.created }

abbrev pub closable : String → RequestRow → Bool
closable id r = has_id id r && waiting r

abbrev pub closed_row : Outcome → ℕ → RequestRow → RequestRow
closed_row outcome now r = record r { outcome = some outcome; decided_at = some now }

abbrev pub closed_rows : String → Outcome → ℕ → List RequestRow → List RequestRow
closed_rows id outcome now = update (closable id) (closed_row outcome now)

abbrev pub voided : ℕ → List TokenRow → List TokenRow
voided now = update open_machine (λ r. record r { used_at = some now })

module _ (db db' : Db) where
  pub after_spend :
      (t key : String) (now : ℕ) (a : Unit {0})
      → spend_token t key now db ≡ ok (a, db')
      → (db' ≡ record db { tokens = spent_tokens t key now db.tokens })
        × (count (λ r. is_token t r && unspent r) db.tokens ≢ 0)
  unfolding spend_token exec_tokens
  after_spend t key now a e = ground arith

  pub after_outcome :
      (t : String) (id : Identity) (a : Unit {0})
      → record_outcome t id db ≡ ok (a, db')
      → db' ≡ record db { tokens = update (is_token t) (outcome_row id) db.tokens }
  unfolding record_outcome exec_tokens
  after_outcome t id a e = ground arith

  pub after_close :
      (r : PairRequest) (outcome : Outcome) (now : ℕ) (a : PairRequest)
      → close_request r outcome now db ≡ ok (a, db')
      → (db' ≡ record db {
        requests = closed_rows r.request_id outcome now db.requests;
        tokens = spent_tokens r.token r.device_key now db.tokens;
      })
        × (count (λ q. has_id r.request_id q && waiting q) db.requests ≢ 0)
        × (a ≡ record r { outcome = some outcome })
  unfolding close_request close_row exec_tokens
  after_close r outcome now a e = ground arith

  pub after_open :
      (rnd : Entropy) (pt : PairToken) (key platform : String) (now : ℕ) (a : PairResult)
      → open_request rnd pt key platform now db ≡ ok (a, db')
      → (db' ≡ record db {
        requests = db.requests ++ request_row (opened_request rnd pt key platform) ∷ [];
      })
        × (device_owner_of pt.issuer_key db ≢ "")
        × (pt.used ≡ false)
        × (count (has_id (opened_request rnd pt key platform).request_id) db.requests ≡ 0)
        × (count (of_token pt.token) db.requests ≡ 0)
  unfolding open_request insert_request
  after_open rnd pt key platform now a e = ground arith

  pub after_link :
      (rnd : Entropy) (now : ℕ) (a : MachineLink)
      → insert_machine_link rnd now db ≡ ok (a, db')
      → (db' ≡ record db { tokens = voided now db.tokens ++ link_row a.token now ∷ [] })
        × (count (is_token a.token) (voided now db.tokens) ≡ 0)
        × (a.expires_at ≡ now + token_ttl_seconds)
  unfolding insert_machine_link insert_token exec_tokens new_token_value
  after_link rnd now a e = ground arith

  pub after_invite :
      (rnd : Entropy) (issuer : String) (now : ℕ) (a : String)
      → issue_device_invite rnd issuer now db ≡ ok (a, db')
      → (d : DeviceRow) × (select (is_device issuer) db.devices ≡ some d)
        × (db' ≡ record db { tokens = db.tokens ++ invite_row a d now ∷ [] })
        × (count (is_token a) db.tokens ≡ 0)
  unfolding issue_device_invite insert_token new_token_value
  after_invite rnd issuer now a e = ground arith

  pub after_user :
      (rnd : Entropy) (now : ℕ) (a : Identity)
      → insert_user rnd now db ≡ ok (a, db')
      → (length db.users ≡ 0) × (db' ≡ record db { users = db.users ++ person_row a now ∷ [] })
  unfolding insert_user
  after_user rnd now a e = ground arith

  pub after_bind :
      (key user platform : String) (now : ℕ) (a : Unit {0})
      → bind_device key user platform now db ≡ ok (a, db')
      → ((device_owner_of key db ≡ "") ⊎ (device_owner_of key db ≡ user))
        × (((count (is_device key) db.devices ≢ 0)
              × (db' ≡ record db {
                devices =
                    update
                      (is_device key)
                      (λ d. record d { platform = platform; last_seen_at = now })
                      db.devices;
              }))
            ⊎ ((count (is_device key) db.devices ≡ 0)
                × (0 < count (is_user user) db.users)
                × (db' ≡ record db {
                  devices =
                      db.devices
                      ++ record {
                        device_key = key;
                        user_id = user;
                        platform = platform;
                        created_at = now;
                        last_seen_at = now;
                      }
                        ∷ [];
                })))
  unfolding bind_device insert_device
  after_bind key user platform now a e = ground arith
