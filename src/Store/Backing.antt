-- ===== src/Store/Backing.antt =====
-- The devices behind the invites of internal/store/pairing.go and the requests of requests.go.
pub mod Revoking
pub mod History
pub mod Strangers
use mathlib.Core.Bool.{false≢true}
use nox_app.Base.{
  ℕ, ◌+◌, ◌≤◌, ◌<◌, String, ◌≡◌, ◌≢◌, refl, ap, subst, sym, ◌∙◌, Bool, true, false, not, ◌&&◌,
  Option, none, some, List, [], ◌∷◌, ◌++◌, arith, All, Bool-cases, same, holds, leb, same→eq,
  same_refl, if◌then◌else◌, ◌==◌, ◌⊎◌, inl, inr,
}
use nox_app.Sql.{select, update, delete, count}
use nox_app.Sql.Laws.{All-update, All-append, All-mono, count-append, touched, select_of_count}
use nox_app.Sql.Counts.{count-update, count-delete, count-delete_self, count_of_found}
use nox_app.Db.{Db, DeviceRow, TokenRow, RequestRow, denied}
use nox_app.Tx.{ok, pure, ◌>>=◌, ◌>>◌}
use nox_app.Tx.Within.{Keeps, Keeps-flow, Within, >>=-eq-ok, moved}
use nox_app.Store.Identity.{
  Entropy, Identity, is_device, touch_device, set_label, device_owner_of, count_devices,
}
use nox_app.Store.Tokens.{
  PairToken, MachineLink, is_token, unspent, open_machine, exec_tokens, link_row, invite_row,
}
use nox_app.Store.Requests.{
  PairRequest, waiting, takes_part, close_requests_of, request_row, opened_request, list_requests,
  close_each,
}
use nox_app.Store.Devices.{Revocation, delete_device, void_invites, void_stale_link, remove_device}
use nox_app.Store.Effects.{
  after_spend, after_outcome, after_close, after_open, after_link, after_invite, after_user,
  after_bind, voided, spendable, spent_row, outcome_row, spent_tokens, closable, closed_row,
}
use nox_app.Store.Closing.{Waits, WaitingAll, close_listed, close_each-WaitingAll, Apart}
use nox_app.Store.Calls.{Call, step, history}
use nox_app.Store.Calls.Closings.{Closings, close_each-Within}
use nox_app.Store.Calls.Walk.{Writes, history-R}
use nox_app.Store.Calls.Removal.{closes_of, void_row}

-- A key that the store lets in.
abbrev pub IsPaired : List DeviceRow → String → Type 0
IsPaired ds key = 0 < count (is_device key) ds

-- An unspent invite has an issuer of which `H` holds.
abbrev pub InviteFits : (String → Type 0) → TokenRow → Type 0
InviteFits H t = unspent t ≡ true → (k : String) → t.issuer_key ≡ some k → H k

abbrev pub RequestFits : (String → Type 0) → RequestRow → Type 0
RequestFits H r = waiting r ≡ true → H r.issuer_key

pub record IsBacked (db : Db) : Type 0 where
  pub invites : All (InviteFits (IsPaired db.devices)) db.tokens
  pub requests : All (RequestFits (IsPaired db.devices)) db.requests

-- An UPDATE that opens no token and moves no issuer.
pub spends_keep :
    (H : String → Type 0) (p : TokenRow → Bool) (f : TokenRow → TokenRow) (ts : List TokenRow)
    → ((t : TokenRow) → unspent (f t) ≡ true → unspent t ≡ true)
    → ((t : TokenRow) → (f t).issuer_key ≡ t.issuer_key)
    → All (InviteFits H) ts
    → All (InviteFits H) (update p f ts)
spends_keep H p f ts opens moves = All-update (InviteFits H) (InviteFits H) p f ts λ t fits.
    elim (Bool-cases (p t)) [
      | inl e ↦ rw e (λ u k h. fits (opens t u) k (sym (moves t) ∙ h))
      | inr e ↦ rw e fits
    ]

module _ (H H' : String → Type 0) (wider : (k : String) → H k → H' k) where
  pub invites_mono : (ts : List TokenRow) → All (InviteFits H) ts → All (InviteFits H') ts
  invites_mono ts =
      All-mono (InviteFits H) (InviteFits H') ts (λ t fits u k h. wider k (fits u k h))

  pub requests_mono : (rs : List RequestRow) → All (RequestFits H) rs → All (RequestFits H') rs
  requests_mono rs =
      All-mono (RequestFits H) (RequestFits H') rs (λ r fits w. wider r.issuer_key (fits w))

-- More devices, the same invites and requests.
pub grown :
    (a b : Db)
    → b.tokens ≡ a.tokens
    → b.requests ≡ a.requests
    → ((k : String) → IsPaired a.devices k → IsPaired b.devices k)
    → IsBacked a
    → IsBacked b
grown a b t r wider v = record {
  invites = rw t (invites_mono (IsPaired a.devices) (IsPaired b.devices) wider a.tokens v.invites);
  requests =
      rw r (requests_mono (IsPaired a.devices) (IsPaired b.devices) wider a.requests v.requests);
}

-- Tokens spent, devices and requests as they were.
pub spent_keep :
    (a b : Db) (p : TokenRow → Bool) (f : TokenRow → TokenRow)
    → b ≡ record a { tokens = update p f a.tokens }
    → ((t : TokenRow) → unspent (f t) ≡ true → unspent t ≡ true)
    → ((t : TokenRow) → (f t).issuer_key ≡ t.issuer_key)
    → IsBacked a
    → IsBacked b
spent_keep a b p f e opens moves v = moved IsBacked e (record {
  invites = spends_keep (IsPaired a.devices) p f a.tokens opens moves v.invites;
  requests = v.requests;
})

-- A token is added whose issuer, if it has one, is paired.
pub added_keep :
    (a b : Db) (t : TokenRow) (ts : List TokenRow)
    → b ≡ record a { tokens = ts ++ t ∷ [] }
    → All (InviteFits (IsPaired a.devices)) ts
    → InviteFits (IsPaired a.devices) t
    → IsBacked a
    → IsBacked b
added_keep a b t ts e kept fits v = moved IsBacked e (record {
  invites = All-append (InviteFits (IsPaired a.devices)) ts (t ∷ []) kept (fits, tt);
  requests = v.requests;
})

pub IsPaired-of_owner :
    (key : String) (db : Db) → device_owner_of key db ≢ "" → IsPaired db.devices key
unfolding device_owner_of
IsPaired-of_owner key db h = ground (arith, select_of_count (is_device key) db.devices)
