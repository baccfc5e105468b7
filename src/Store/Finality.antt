-- ===== src/Store/Finality.antt =====
-- What closes a request of internal/store/requests.go and spends a token of pairing.go, and the
-- writes that each is followed through.
pub mod Requests
pub mod Tokens
use nox_app.Base.{
  ℕ, String, ◌≡◌, refl, Bool, true, false, Option, none, some, List, [], ◌∷◌, ◌++◌, arith, same,
  is_none, Bool-cases, inl, inr, ◌∙◌,
}
use nox_app.Sql.{select, update}
use nox_app.Sql.Laws.{select-update, select-append, touched, on_row, or_row}
use nox_app.Db.{Db, Outcome, TokenRow, RequestRow}
use nox_app.Tx.{ok}
use nox_app.Tx.Within.{Keeps, Keeps-flow, Within, moved}
use nox_app.Store.Identity.{Entropy, Identity, touch_device, set_label}
use nox_app.Store.Tokens.{is_token, unspent, open_machine, exec_tokens, link_row, invite_row}
use nox_app.Store.Requests.{PairRequest, has_id, request_row, opened_request, pair_request_outcome}
use nox_app.Store.Devices.{delete_device}
use nox_app.Store.Effects.{
  after_spend, after_outcome, after_close, after_open, after_link, after_invite, after_user,
  after_bind, voided, spendable, spent_row, outcome_row, closable, closed_row,
}
use nox_app.Store.Calls.{Call, step, history}
use nox_app.Store.Calls.Closings.{Closings}
use nox_app.Store.Calls.Walk.{Writes, history-R}
use nox_app.Store.Calls.Removal.{removes_by, void_row}

-- The request is closed with this outcome.
abbrev pub IsClosed : String → Outcome → Db → Type 0
IsClosed id o db = pair_request_outcome id db ≡ ok (some o)

-- The token was spent at this second, by this device if any.
abbrev spending : Option TokenRow → Option (Option ℕ × Option String)
spending none = none
spending (some r) = some (r.used_at, r.used_by)

abbrev pub IsSpent : String → ℕ → Option String → Db → Type 0
IsSpent t at by db = spending (select (is_token t) db.tokens) ≡ some (some at, by)

module _ (id : String) (o : Outcome) where
  pub same_requests : (a b : Db) → b.requests ≡ a.requests → IsClosed id o a → IsClosed id o b
  unfolding pair_request_outcome
  same_requests a b e v = rw e v

  pub IsClosed-open :
      (a b : Db) (r : RequestRow)
      → b.requests ≡ a.requests ++ r ∷ []
      → IsClosed id o a
      → IsClosed id o b
  unfolding pair_request_outcome
  IsClosed-open a b r e v = rw e (ground (arith, select-append (has_id id) a.requests (r ∷ [])))

  pub IsClosed-close :
      (a b : Db) (other : String) (outcome : Outcome) (now : ℕ)
      → b.requests ≡ update (closable other) (closed_row outcome now) a.requests
      → IsClosed id o a
      → IsClosed id o b
  unfolding pair_request_outcome
  IsClosed-close a b other outcome now e v = rw e (
      ground (
        arith,
        select-update (has_id id) (closable other) (closed_row outcome now) a.requests (λ r. refl),
      ))

module _ (t : String) (at : ℕ) (by : Option String) where
  pub same_tokens : (a b : Db) → b.tokens ≡ a.tokens → IsSpent t at by a → IsSpent t at by b
  same_tokens a b e v = rw e v

  pub IsSpent-append :
      (a b : Db) (r : TokenRow)
      → b.tokens ≡ a.tokens ++ r ∷ []
      → IsSpent t at by a
      → IsSpent t at by b
  IsSpent-append a b r e v = rw e (ground (arith, select-append (is_token t) a.tokens (r ∷ [])))

  -- An UPDATE that moves no token's name, and leaves the spending of spent tokens alone.
  pub IsSpent-update :
      (a b : Db) (p : TokenRow → Bool) (f : TokenRow → TokenRow)
      → b.tokens ≡ update p f a.tokens
      → ((r : TokenRow) → is_token t (f r) ≡ is_token t r)
      → ((r : TokenRow)
          → p r ≡ true
          → unspent r ≡ false
          → spending (some (f r)) ≡ spending (some r))
      → IsSpent t at by a
      → IsSpent t at by b
  IsSpent-update a b p f e names settled v =
      rw (e, select-update (is_token t) p f a.tokens names) (found (select (is_token t) a.tokens) v)
    where
      found :
          (o : Option TokenRow)
          → spending o ≡ some (some at, by)
          → spending (on_row (touched p f) o) ≡ some (some at, by)
      found none h = h
      found (some r) h = elim (Bool-cases (p r)) [
        | inl hit ↦ rw hit (settled r hit (ground arith) ∙ h)
        | inr miss ↦ rw miss h
      ]
