-- ===== src/Store/Calls/Removal.antt =====
-- Revoking a device is a delete, a closing of its requests and two updates of tokens.
use nox_app.Base.{ℕ, String, ◌≡◌, Bool, true, ◌&&◌, some, holds, leb, ◌==◌, arith}
use nox_app.Db.{Db, TokenRow}
use nox_app.Tx.{read}
use nox_app.Tx.Within.{Within, Within-read, Within-pure, Within-bind, Within-if}
use nox_app.Store.Identity.{count_devices}
use nox_app.Store.Tokens.{exec_tokens, open_machine, unspent}
use nox_app.Store.Requests.{close_requests_of}
use nox_app.Store.Devices.{delete_device, void_invites, void_stale_link, remove_device}
use nox_app.Store.Calls.Closings.{Closings, close_each-Within}

-- Spending the rows that a test picks, with no device named.
abbrev pub void_row : ℕ → TokenRow → TokenRow
void_row now r = record r { used_at = some now }

module _ {R : Db → Db → Type 0} (w : Closings R) where
  open w use {flow}

  pub closes_of : (key : String) (now : ℕ) (db : Db) → Within R (close_requests_of key now) db
  unfolding close_requests_of
  closes_of key now db = search (flow, w, Within-read, Within-bind, close_each-Within)

  module _
      (voids : (p : TokenRow → Bool) (now : ℕ) (db : Db)
        → ((r : TokenRow) → p r ≡ true → unspent r ≡ true)
        → Within R (exec_tokens p (void_row now)) db) where
    pub voids_invites : (key : String) (now : ℕ) (db : Db) → Within R (void_invites key now) db
    unfolding void_invites
    voids_invites key now db =
        Within-bind flow (exec_tokens (λ r. holds r.issuer_key key && unspent r) (void_row now)) _
          db (voids _ now db (λ r h. ground arith)) (λ n db' _. Within-pure flow tt db')

    pub voids_stale : (now : ℕ) (db : Db) → Within R (void_stale_link now) db
    unfolding void_stale_link
    voids_stale now db =
        Within-bind flow (read count_devices) _ db (Within-read flow count_devices db) λ n db' _.
          Within-if (n == 0) _ _ db'
            (λ _.
              Within-bind flow
                (exec_tokens (λ r. open_machine r && leb r.expires_at now) (void_row now)) _ db'
                (voids _ now db' (λ r h. ground arith)) (λ _ db'' _. Within-pure flow tt db''))
            (λ _. Within-pure flow tt db')

    pub removes_by :
        ((key : String) (db : Db) → Within R (delete_device key) db)
        → (key : String) (now : ℕ) (db : Db) → Within R (remove_device key now) db
    unfolding remove_device
    removes_by deletes key now db =
        search (flow, deletes, closes_of, voids_invites, voids_stale, Within-pure, Within-bind)
