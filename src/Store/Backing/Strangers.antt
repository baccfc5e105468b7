-- ===== src/Store/Backing/Strangers.antt =====
-- internal/store/devices.go: revoking a device, and what a key without a device may ask.
use nox_app.Base.{
  ℕ, String, ◌≡◌, ◌≢◌, Bool, false, some, arith, All, Bool-cases, same, Option-cases, inl, inr,
}
use nox_app.Sql.{select, delete, count}
use nox_app.Sql.Laws.{All-mono, select_of_count, count_of_select}
use nox_app.Sql.Counts.{count-delete_self}
use nox_app.Db.{Db, TokenRow}
use nox_app.Tx.{ok, err, device_unknown}
use nox_app.Store.Identity.{Entropy, is_device, resolve_identity, lookup_by_device, device_owner_of}
use nox_app.Store.Tokens.{issue_device_invite, new_token_value, unspent}
use nox_app.Store.Requests.{decide_pair_request, takes_part, waiting}
use nox_app.Store.Devices.{Revocation, revoke_device_by, check_caller}
use nox_app.Store.Backing.{IsPaired, InviteFits, IsBacked}
use nox_app.Store.Backing.Revoking.{IsGone, after_remove, held_invite}
use nox_app.Store.Closing.{Waits}

-- No row of the store would let the key in, or act on its authority.
pub record IsRevoked (key : String) (db : Db) : Type 0 where
  pub unpaired : count (is_device key) db.devices ≡ 0
  pub requests : All (λ r. takes_part key r ≡ false) db.requests
  pub invites : All (λ t. held_invite key t ≡ false) db.tokens

gone-IsRevoked :
    (key : String) (H : String → Type 0) (db : Db)
    → count (is_device key) db.devices ≡ 0
    → IsGone key H db
    → IsRevoked key db
gone-IsRevoked key H db unpaired gone = record {
  unpaired = unpaired;
  requests =
      All-mono (Waits (λ r. H r.issuer_key × (takes_part key r ≡ false)))
        (λ r. takes_part key r ≡ false) db.requests
        (λ r w. elim (Bool-cases (waiting r)) [ inl h ↦ (w h).1 | inr h ↦ ground arith ])
        gone.requests;
  invites =
      All-mono (InviteFits (λ k. H k × (same k key ≡ false))) (λ t. held_invite key t ≡ false)
        db.tokens (λ t fits. unissued t fits) gone.invites;
}
  where
    unissued :
        (t : TokenRow) → InviteFits (λ k. H k × (same k key ≡ false)) t → held_invite key t ≡ false
    unissued t fits = elim (Bool-cases (unspent t)) [
      | inr h ↦ ground arith
      | inl h ↦ elim (Option-cases t.issuer_key) [
        | inl e ↦ ground arith
        | inr (k, e) ↦ let f = (fits h k e).1 in ground arith
      ]
    ]

-- Where every unspent invite and every waiting request has a paired issuer, a revocation of a
-- paired device that succeeds leaves no device row of its key, no waiting request that it was to
-- answer or had opened, and no unspent invite that it issued.
pub revoke_device-IsRevoked :
    (caller key : String) (now : ℕ) (db db' : Db) (a : Revocation)
    → IsBacked db
    → IsPaired db.devices key
    → revoke_device_by caller key now db ≡ ok (a, db')
    → IsRevoked key db'
unfolding revoke_device_by check_caller
revoke_device-IsRevoked caller key now db db' a v paired e =
    elim (Option-cases (select (is_device key) db.devices)) [
      | inl missing ↦ absurd (omega (arith, count_of_select (is_device key) db.devices missing))
      | inr (d, there) ↦
          let facts = after_remove key now db db' a (ground arith) v in
          gone-IsRevoked key (IsPaired (delete (is_device key) db.devices)) db'
            (rw facts.0 (count-delete_self (is_device key) db.devices)) facts.1
    ]

-- A key that is not empty and has no device row is refused as unknown when it greets, mints an
-- invite for which a token was drawn, answers a request, or revokes a device.
pub unpaired-device_unknown :
    (key : String) (db : Db) (rnd : Entropy) (token id other : String) (allow : Bool) (now : ℕ)
    → count (is_device key) db.devices ≡ 0
    → rnd.token ≡ some token
    → key ≢ ""
    → (resolve_identity key now db ≡ err device_unknown)
      × (issue_device_invite rnd key now db ≡ err device_unknown)
      × (decide_pair_request id key allow now db ≡ err device_unknown)
      × (revoke_device_by key other now db ≡ err device_unknown)
unfolding resolve_identity lookup_by_device issue_device_invite new_token_value decide_pair_request
    device_owner_of revoke_device_by check_caller
unpaired-device_unknown key db rnd token id other allow now h t n =
    let missing = select_of_count (is_device key) db.devices h in
    (ground arith, ground arith, ground arith, ground arith)
