-- ===== src/Store/Devices.antt =====
-- internal/store/devices.go: the list of devices, and revoking one.
use nox_app.Base.{
  ℕ, String, Bool, not, ◌&&◌, ◌||◌, Option, none, some, List, [], map, ltb, leb, ◌==◌,
  if◌then◌else◌, same, holds,
}
use nox_app.Sql.{select, delete, count, where_rows, order_by}
use nox_app.Db.{Db, DeviceRow}
use nox_app.Tx.{Tx, pure, ◌>>=◌, ◌>>◌, read, write, require, device_unknown}
use nox_app.Store.Identity.{is_device, count_devices}
use nox_app.Store.Tokens.{exec_tokens, open_machine, unspent}
use nox_app.Store.Requests.{PairRequest, close_requests_of}

pub record Device : Type 0 where
  pub device_key : String
  pub platform : String
  pub created_at : ℕ
  pub last_seen_at : ℕ

abbrev pub scan_device : DeviceRow → Device
scan_device d = record {
  device_key = d.device_key;
  platform = d.platform;
  created_at = d.created_at;
  last_seen_at = d.last_seen_at;
}

abbrev pub older : DeviceRow → DeviceRow → Bool
older c d = ltb c.created_at d.created_at

unfoldable pub list_devices : String → Db → List Device
list_devices user db =
    map scan_device (order_by older (where_rows (λ d. same d.user_id user) db.devices))

unfoldable pub all_devices : Db → List Device
all_devices db = map scan_device (order_by older db.devices)

-- The requests that a revocation closed.
pub record Revocation : Type 0 where
  pub closed : List PairRequest

unfoldable pub delete_device : String → Tx (Unit {0})
delete_device key = write (λ db. record db { devices = delete (is_device key) db.devices })

-- The invites that the device issued and nobody has presented.
unfoldable pub void_invites : String → ℕ → Tx (Unit {0})
void_invites key now = do
  _ ← exec_tokens (λ r. holds r.issuer_key key && unspent r) (λ r. record r { used_at = some now })
  pure tt

-- With the last device gone, a machine link that ran out unused.
unfoldable pub void_stale_link : ℕ → Tx (Unit {0})
void_stale_link now = do
  devices ← read count_devices
  if devices == 0
      then (do
        _ ←
            exec_tokens (λ r. open_machine r && leb r.expires_at now)
              (λ r. record r { used_at = some now })
        pure tt)
      else pure tt

-- revokeDevice once the caller is known to be paired and the device to be there.
unfoldable pub remove_device : String → ℕ → Tx Revocation
remove_device key now = do
  delete_device key
  closed ← close_requests_of key now
  void_invites key now
  void_stale_link now
  pure (record { closed = closed })

-- An empty caller checks nobody.
unfoldable pub check_caller : String → Tx (Unit {0})
check_caller caller = do
  paired ← read (λ db. count (is_device caller) db.devices)
  require (same caller "" || not (paired == 0)) device_unknown

abbrev pub revoke_found : Option DeviceRow → String → ℕ → Tx Revocation
revoke_found none key now = pure (record { closed = [] })
revoke_found (some _) key now = remove_device key now

unfoldable pub revoke_device_by : String → String → ℕ → Tx Revocation
revoke_device_by caller key now = do
  check_caller caller
  row ← read (λ db. select (is_device key) db.devices)
  revoke_found row key now

unfoldable pub revoke_device : String → ℕ → Tx Revocation
unfolding revoke_device_by
revoke_device key now = revoke_device_by "" key now

unfoldable pub revoke_device_as : String → String → ℕ → Tx Revocation
unfolding revoke_device_by
revoke_device_as caller key now = revoke_device_by caller key now
