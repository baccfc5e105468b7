-- ===== src/Store/Finality/Requests.antt =====
-- The calls of internal/store on requests, and a request that is closed.
use nox_app.Base.{ℕ, String, ◌≡◌, Bool, true, List, arith}
use nox_app.Db.{Db, Outcome, TokenRow}
use nox_app.Tx.Within.{Keeps, Keeps-flow, Within}
use nox_app.Store.Identity.{touch_device, set_label}
use nox_app.Store.Tokens.{exec_tokens, unspent}
use nox_app.Store.Requests.{request_row, opened_request}
use nox_app.Store.Devices.{delete_device}
use nox_app.Store.Effects.{
  after_spend, after_outcome, after_close, after_open, after_link, after_invite, after_user,
  after_bind,
}
use nox_app.Store.Finality.{IsClosed, same_requests, IsClosed-open, IsClosed-close}
use nox_app.Store.Calls.{Call, history}
use nox_app.Store.Calls.Closings.{Closings}
use nox_app.Store.Calls.Walk.{Writes, history-R}
use nox_app.Store.Calls.Removal.{removes_by, void_row}

module _ (id : String) (o : Outcome) where
  closings_keep : Closings (Keeps (IsClosed id o))
  closings_keep = record {
    flow = Keeps-flow (IsClosed id o);
    opens = λ rnd pt key platform now db. record {
      at = λ a db' e v.
          let whole = (after_open db db' rnd pt key platform now a e).0 in
          IsClosed-open id o db db' (request_row (opened_request rnd pt key platform))
            (ground arith) v;
    };
    closes = λ r outcome now db. record {
      at = λ a db' e v.
          let whole = (after_close db db' r outcome now a e).0 in
          IsClosed-close id o db db' r.request_id outcome now (ground arith) v;
    };
  }

  touch_keep :
      (key : String) (now : ℕ) (db : Db) → Within (Keeps (IsClosed id o)) (touch_device key now) db
  unfolding touch_device
  touch_keep key now db = record { at = λ a db' e v. same_requests id o db db' (ground arith) v }

  labels_keep :
      (user label : String) (db : Db) → Within (Keeps (IsClosed id o)) (set_label user label) db
  unfolding set_label
  labels_keep user label db = record {
    at = λ a db' e v. same_requests id o db db' (ground arith) v;
  }

  delete_keep : (key : String) (db : Db) → Within (Keeps (IsClosed id o)) (delete_device key) db
  unfolding delete_device
  delete_keep key db = record { at = λ a db' e v. same_requests id o db db' (ground arith) v }

  voids_keep :
      (p : TokenRow → Bool) (now : ℕ) (db : Db)
      → ((r : TokenRow) → p r ≡ true → unspent r ≡ true)
      → Within (Keeps (IsClosed id o)) (exec_tokens p (void_row now)) db
  unfolding exec_tokens
  voids_keep p now db _ = record { at = λ a db' e v. same_requests id o db db' (ground arith) v }

  pub writes_keep : Writes (Keeps (IsClosed id o))
  writes_keep = record {
    closings = closings_keep;
    touches = touch_keep;
    labels = labels_keep;
    users = λ rnd now db. record {
      at = λ a db' e v.
          let whole = (after_user db db' rnd now a e).1 in
          same_requests id o db db' (ground arith) v;
    };
    binds = λ key user platform now db. record {
      at = λ a db' e v.
          let whole = (after_bind db db' key user platform now a e).1 in
          same_requests id o db db' (ground arith) v;
    };
    spends = λ t key now db. record {
      at = λ a db' e v.
          let whole = (after_spend db db' t key now a e).0 in
          same_requests id o db db' (ground arith) v;
    };
    records = λ t person db. record {
      at = λ a db' e v.
          let whole = after_outcome db db' t person a e in
          same_requests id o db db' (ground arith) v;
    };
    links = λ rnd now db. record {
      at = λ a db' e v.
          let whole = (after_link db db' rnd now a e).0 in
          same_requests id o db db' (ground arith) v;
    };
    invites = λ rnd issuer now db. record {
      at = λ a db' e v.
          let whole = (after_invite db db' rnd issuer now a e).2 in
          same_requests id o db db' (ground arith) v;
    };
    removes = removes_by closings_keep voids_keep delete_keep;
  }

  -- A request that is closed keeps its outcome through every history of calls to a server that
  -- runs.
  pub history-IsClosed :
      (db : Db) (cs : List Call) → IsClosed id o db → IsClosed id o (history db cs)
  history-IsClosed db cs v = history-R writes_keep db cs v
