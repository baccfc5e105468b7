-- ===== src/Store/Backing/Revoking.antt =====
-- internal/store/devices.go: the tables after RevokeDevice.
use nox_app.Base.{
  ℕ, String, ◌≡◌, refl, ap, ◌∙◌, Bool, false, ◌&&◌, List, arith, All, Bool-cases, same, holds, leb,
  ◌⊎◌, inl, inr,
}
use nox_app.Sql.{update, delete}
use nox_app.Sql.Laws.{All-update, All-mono}
use nox_app.Sql.Counts.{count-delete}
use nox_app.Db.{Db, DeviceRow, TokenRow, RequestRow, denied}
use nox_app.Tx.{ok, pure, ◌>>◌}
use nox_app.Tx.Within.{Keeps, Keeps-flow, >>=-eq-ok, moved}
use nox_app.Store.Identity.{is_device}
use nox_app.Store.Tokens.{unspent, open_machine, exec_tokens}
use nox_app.Store.Requests.{PairRequest, takes_part, close_requests_of}
use nox_app.Store.Devices.{Revocation, delete_device, void_invites, void_stale_link, remove_device}
use nox_app.Store.Effects.{after_close, after_open, spendable, spent_row}
use nox_app.Store.Closing.{Waits, WaitingAll, close_listed}
use nox_app.Store.Calls.Closings.{Closings}
use nox_app.Store.Calls.Removal.{closes_of, void_row}
use nox_app.Store.Calls.Quiet.{closings-IsQuiet}
use nox_app.Store.Backing.{IsPaired, InviteFits, IsBacked, spends_keep, invites_mono, requests_mono}

-- An issuer other than the key that is being revoked.
abbrev Other : String → (String → Type 0) → String → Type 0
Other key H k = (same k key ≡ false) → H k

abbrev pub held_invite : String → TokenRow → Bool
held_invite key t = holds t.issuer_key key && unspent t

-- What holds of the tokens and the requests once the device's row is gone.
record IsOpen (key : String) (H : String → Type 0) (db : Db) : Type 0 where
  invites : All (InviteFits (Other key H)) db.tokens
  requests : All (Waits (λ r. Other key H r.issuer_key)) db.requests

-- What holds when the revocation is done.
pub record IsGone (key : String) (H : String → Type 0) (db : Db) : Type 0 where
  pub invites : All (InviteFits (λ k. H k × (same k key ≡ false))) db.tokens
  pub requests : All (Waits (λ r. H r.issuer_key × (takes_part key r ≡ false))) db.requests

without_row :
    (key : String) (db : Db)
    → IsBacked db
    → IsOpen key
        (IsPaired (delete (is_device key) db.devices))
        (record db { devices = delete (is_device key) db.devices })
without_row key db v = record {
  invites = invites_mono (IsPaired db.devices) (Other key left) wider db.tokens v.invites;
  requests = requests_mono (IsPaired db.devices) (Other key left) wider db.requests v.requests;
}
  where
    left : String → Type 0
    left = IsPaired (delete (is_device key) db.devices)

    wider : (k : String) → IsPaired db.devices k → Other key left k
    wider k h apart =
        rw (count-delete (is_device k) (is_device key) db.devices (λ d e. ground arith)) h

-- The closings write tokens only to spend them, and leave the devices alone.
closing_flow : (H : String → Type 0) → Closings (Keeps (λ db. All (InviteFits H) db.tokens))
closing_flow H = record {
  flow = Keeps-flow (λ db. All (InviteFits H) db.tokens);
  opens = λ rnd pt key platform now db. record {
    at = λ a db' e v.
        moved (λ db. All (InviteFits H) db.tokens) (after_open db db' rnd pt key platform now a e).0
          v;
  };
  closes = λ r outcome now db. record {
    at = λ a db' e v.
        moved (λ db. All (InviteFits H) db.tokens) (after_close db db' r outcome now a e).0
          (spends_keep H (spendable r.token) (spent_row r.device_key now) db.tokens (λ t u. cc)
            (λ t. refl) v);
  };
}

closes_of_invites :
    (H : String → Type 0) (key : String) (now : ℕ) (db db' : Db) (a : List PairRequest)
    → close_requests_of key now db ≡ ok (a, db')
    → All (InviteFits H) db.tokens
    → All (InviteFits H) db'.tokens
closes_of_invites H key now db db' a e = (closes_of (closing_flow H) key now db).at a db' e

closes_of_requests :
    (Q : RequestRow → Type 0) (key : String) (now : ℕ) (db db' : Db) (a : List PairRequest)
    → close_requests_of key now db ≡ ok (a, db')
    → WaitingAll Q db
    → WaitingAll (λ r. Q r × (takes_part key r ≡ false)) db'
unfolding close_requests_of
closes_of_requests Q key now db db' a e v =
    close_listed Q (takes_part key) denied now db db' a (ground arith) v

-- Voiding the invites of the key: those that are left have another issuer.
voided_invites :
    (H : String → Type 0) (key : String) (now : ℕ) (ts : List TokenRow)
    → All (InviteFits (Other key H)) ts
    → All
        (InviteFits (λ k. H k × (same k key ≡ false)))
        (update (held_invite key) (void_row now) ts)
voided_invites H key now ts =
    All-update (InviteFits (Other key H)) (InviteFits (λ k. H k × (same k key ≡ false)))
      (held_invite key) (void_row now) ts
      λ t fits. elim (Bool-cases (held_invite key t)) [
        | inl e ↦ rw e (λ u k h. cc)
        | inr e ↦
            rw e
              (λ u k h. let apart : same k key ≡ false = ground arith in (fits u k h apart, apart))
      ]

after_void_invites :
    (key : String) (now : ℕ) (db db' : Db) (a : Unit {0})
    → void_invites key now db ≡ ok (a, db')
    → db' ≡ record db { tokens = update (held_invite key) (void_row now) db.tokens }
unfolding void_invites exec_tokens
after_void_invites key now db db' a e = ground arith

stale : ℕ → TokenRow → Bool
stale now r = open_machine r && leb r.expires_at now

after_void_stale :
    (now : ℕ) (db db' : Db) (a : Unit {0})
    → void_stale_link now db ≡ ok (a, db')
    → (db' ≡ db)
      ⊎ (db' ≡ record db {
        tokens = update (λ r. open_machine r && leb r.expires_at now) (void_row now) db.tokens;
      })
unfolding void_stale_link exec_tokens
after_void_stale now db db' a e = ground arith

void_stale_keeps :
    (H : String → Type 0) (Q : RequestRow → Type 0) (now : ℕ) (db db' : Db) (a : Unit {0})
    → void_stale_link now db ≡ ok (a, db')
    → All (InviteFits H) db.tokens
    → WaitingAll Q db
    → All (InviteFits H) db'.tokens × WaitingAll Q db' × (db'.devices ≡ db.devices)
void_stale_keeps H Q now db db' a e t r = elim (after_void_stale now db db' a e) [
  | inl same_db ↦
      moved (λ x. All (InviteFits H) x.tokens × WaitingAll Q x × (x.devices ≡ db.devices)) same_db
        (t, r, refl)
  | inr whole ↦
      moved (λ x. All (InviteFits H) x.tokens × WaitingAll Q x × (x.devices ≡ db.devices)) whole
        (
          spends_keep H (λ r. open_machine r && leb r.expires_at now) (void_row now) db.tokens
              (λ t u. cc) (λ t. refl) t,
          r,
          refl,
        )
]

-- The block of revokeDevice after its reads, from a store whose invites and requests are backed.
pub after_remove :
    (key : String) (now : ℕ) (db db' : Db) (a : Revocation)
    → remove_device key now db ≡ ok (a, db')
    → IsBacked db
    → (db'.devices ≡ delete (is_device key) db.devices)
      × IsGone key (IsPaired (delete (is_device key) db.devices)) db'
unfolding remove_device delete_device
after_remove key now db db' a e v =
    let (closed, db₂, closes, e₂) =
      >>=-eq-ok (close_requests_of key now)
        (λ closed.
          void_invites key now >> (void_stale_link now >> pure (record { closed = closed })))
        (record db { devices = left }) a db' (ground arith) in
    let (_, db₃, voids, e₃) =
      >>=-eq-ok (void_invites key now)
        (λ _. void_stale_link now >> pure (record { closed = closed })) db₂ a db' e₂ in
    let (_, db₄, stales, e₄) =
      >>=-eq-ok (void_stale_link now) (λ _. pure (record { closed = closed })) db₃ a db' e₃ in
    let open_ = without_row key db v in
    let quiet =
      (closes_of closings-IsQuiet key now (record db { devices = left })).at closed db₂ closes in
    let t₂ =
      closes_of_invites (Other key H) key now (record db { devices = left }) db₂ closed closes
        open_.invites in
    let r₂ =
      closes_of_requests (λ r. Other key H r.issuer_key) key now (record db { devices = left }) db₂
        closed closes open_.requests in
    let whole₃ = after_void_invites key now db₂ db₃ _ voids in
    let t₃ =
      moved (λ x. All (InviteFits kept) x.tokens) whole₃ (voided_invites H key now db₂.tokens t₂) in
    let r₃ = moved (WaitingAll lost) whole₃ (
      All-mono (Waits (λ r. Other key H r.issuer_key × (takes_part key r ≡ false))) (Waits lost)
        db₂.requests narrow r₂) in
    let (t₄, r₄, d₄) = void_stale_keeps kept lost now db₃ db₄ _ stales t₃ r₃ in
    moved (λ x. (x.devices ≡ left) × IsGone key H x) {a = db'} {b = db₄} (ground arith)
      (d₄ ∙ ap (λ x. x.devices) whole₃ ∙ quiet.devices, record { invites = t₄; requests = r₄ })
  where
    left : List DeviceRow
    left = delete (is_device key) db.devices

    H : String → Type 0
    H = IsPaired left

    kept : String → Type 0
    kept k = H k × (same k key ≡ false)

    lost : RequestRow → Type 0
    lost r = H r.issuer_key × (takes_part key r ≡ false)

    narrow :
        (r : RequestRow)
        → Waits (λ x. Other key H x.issuer_key × (takes_part key x ≡ false)) r
        → Waits lost r
    narrow r w h = let u = w h in (u.0 (ground arith), u.1)
