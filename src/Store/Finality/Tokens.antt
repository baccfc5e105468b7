-- ===== src/Store/Finality/Tokens.antt =====
-- The calls of internal/store on tokens, and a token that is spent.
use nox_app.Base.{ℕ, String, ◌≡◌, refl, Bool, true, Option, [], ◌∷◌, ◌++◌, arith}
use nox_app.Db.{Db, TokenRow}
use nox_app.Tx.Within.{Keeps, Keeps-flow, Within}
use nox_app.Store.Identity.{touch_device, set_label}
use nox_app.Store.Tokens.{is_token, open_machine, unspent, exec_tokens, link_row, invite_row}
use nox_app.Store.Devices.{delete_device}
use nox_app.Store.Effects.{
  after_spend, after_outcome, after_close, after_open, after_link, after_invite, after_user,
  after_bind, voided, spendable, spent_row, outcome_row,
}
use nox_app.Store.Finality.{IsSpent, same_tokens, IsSpent-append, IsSpent-update}
use nox_app.Store.Calls.Closings.{Closings}
use nox_app.Store.Calls.Walk.{Writes}
use nox_app.Store.Calls.Removal.{removes_by, void_row}

module _ (t : String) (at : ℕ) (by : Option String) where
  closings_keep : Closings (Keeps (IsSpent t at by))
  closings_keep = record {
    flow = Keeps-flow (IsSpent t at by);
    opens = λ rnd pt key platform now db. record {
      at = λ a db' e v.
          let whole = (after_open db db' rnd pt key platform now a e).0 in
          same_tokens t at by db db' (ground arith) v;
    };
    closes = λ r outcome now db. record {
      at = λ a db' e v.
          let whole = (after_close db db' r outcome now a e).0 in
          IsSpent-update t at by db db' (spendable r.token) (spent_row r.device_key now)
            (ground arith) (λ x. refl) (λ x h u. ground arith) v;
    };
  }

  touch_keep :
      (key : String) (now : ℕ) (db : Db)
      → Within (Keeps (IsSpent t at by)) (touch_device key now) db
  unfolding touch_device
  touch_keep key now db = record { at = λ a db' e v. same_tokens t at by db db' (ground arith) v }

  labels_keep :
      (user label : String) (db : Db) → Within (Keeps (IsSpent t at by)) (set_label user label) db
  unfolding set_label
  labels_keep user label db = record {
    at = λ a db' e v. same_tokens t at by db db' (ground arith) v;
  }

  delete_keep : (key : String) (db : Db) → Within (Keeps (IsSpent t at by)) (delete_device key) db
  unfolding delete_device
  delete_keep key db = record { at = λ a db' e v. same_tokens t at by db db' (ground arith) v }

  voids_keep :
      (p : TokenRow → Bool) (now : ℕ) (db : Db)
      → ((r : TokenRow) → p r ≡ true → unspent r ≡ true)
      → Within (Keeps (IsSpent t at by)) (exec_tokens p (void_row now)) db
  unfolding exec_tokens
  voids_keep p now db open_only = record {
    at = λ a db' e v.
        IsSpent-update t at by db db' p (void_row now) (ground arith) (λ x. refl)
          (λ x h u. let o = open_only x h in ground arith) v;
  }

  link_keep :
      (now : ℕ) (token : String) (a b : Db)
      → b ≡ record a { tokens = voided now a.tokens ++ link_row token now ∷ [] }
      → IsSpent t at by a
      → IsSpent t at by b
  link_keep now token a b e v =
      IsSpent-append t at by (record a { tokens = voided now a.tokens }) b (link_row token now)
        (ground arith)
        (IsSpent-update t at by a (record a { tokens = voided now a.tokens }) open_machine
          (void_row now) refl (λ x. refl) (λ x h u. ground arith) v)

  pub writes_keep : Writes (Keeps (IsSpent t at by))
  writes_keep = record {
    closings = closings_keep;
    touches = touch_keep;
    labels = labels_keep;
    users = λ rnd now db. record {
      at = λ a db' e v.
          let whole = (after_user db db' rnd now a e).1 in
          same_tokens t at by db db' (ground arith) v;
    };
    binds = λ key user platform now db. record {
      at = λ a db' e v.
          let whole = (after_bind db db' key user platform now a e).1 in
          same_tokens t at by db db' (ground arith) v;
    };
    spends = λ token key now db. record {
      at = λ a db' e v.
          let whole = (after_spend db db' token key now a e).0 in
          IsSpent-update t at by db db' (spendable token) (spent_row key now) (ground arith)
            (λ x. refl) (λ x h u. ground arith) v;
    };
    records = λ token person db. record {
      at = λ a db' e v.
          let whole = after_outcome db db' token person a e in
          IsSpent-update t at by db db' (is_token token) (outcome_row person) (ground arith)
            (λ x. refl) (λ x h u. refl) v;
    };
    links = λ rnd now db. record {
      at = λ a db' e v. link_keep now a.token db db' (after_link db db' rnd now a e).0 v;
    };
    invites = λ rnd issuer now db. record {
      at = λ a db' e v.
          let (d, there, whole, fresh) = after_invite db db' rnd issuer now a e in
          IsSpent-append t at by db db' (invite_row a d now) (ground arith) v;
    };
    removes = removes_by closings_keep voids_keep delete_keep;
  }
