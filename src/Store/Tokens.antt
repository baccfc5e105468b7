-- ===== src/Store/Tokens.antt =====
-- internal/store/pairing.go: the tokens, from minting to spending, and the person a token produces.
mod Links
unfoldable pub use Links.*
use nox_app.Base.{
  ℕ, ◌+◌, String, Bool, true, false, not, ◌&&◌, ◌||◌, Option, none, some, List, [], ◌∷◌, ◌++◌, ltb,
  ◌==◌, if◌then◌else◌, same, holds, is_none,
}
use nox_app.Sql.{select, update, count, where_rows}
use nox_app.Db.{Db, Kind, machine, invite_device, TokenRow, UserRow, DeviceRow}
use nox_app.Tx.{
  Tx, pure, fail, ◌>>=◌, ◌>>◌, read, write, require, device_unknown, token_invalid, token_expired,
  internal,
}
use nox_app.Store.Identity.{
  Entropy, Identity, is_device, device_owner_of, count_people, count_devices, insert_user,
  insert_device,
}

pub record PairToken : Type 0 where
  pub token : String
  pub kind : Kind
  pub user_id : String
  pub issuer_key : String
  pub expires_at : ℕ
  pub used : Bool

-- sql.NullString's String.
abbrev pub text_of : Option String → String
text_of none = ""
text_of (some s) = s

abbrev pub scanned_token : TokenRow → PairToken
scanned_token r = record {
  token = r.token;
  kind = r.kind;
  user_id = text_of r.user_id;
  issuer_key = text_of r.issuer_key;
  expires_at = r.expires_at;
  used = not (is_none r.used_at);
}

abbrev pub scan_token : Option TokenRow → Tx PairToken
scan_token none = fail token_invalid
scan_token (some r) = pure (scanned_token r)

unfoldable pub read_token : String → Tx PairToken
read_token t = do row ← read (λ db. select (is_token t) db.tokens); scan_token row

unfoldable pub spend_token : String → String → ℕ → Tx (Unit {0})
spend_token t key now = do
  n ←
      exec_tokens (λ r. is_token t r && unspent r)
        (λ r. record r { used_at = some now; used_by = some key })
  require (not (n == 0)) token_invalid

unfoldable pub bind_device : String → String → String → ℕ → Tx (Unit {0})
bind_device key user platform now = do
  bound ← read (device_owner_of key)
  require (same bound "" || same bound user) token_invalid
  insert_device key user platform now

unfoldable pub record_outcome : String → Identity → Tx (Unit {0})
record_outcome t id = do
  _ ←
      exec_tokens (is_token t)
        (λ r. record r { paired_user_id = some id.user_id; created_person = id.created })
  pure tt

-- The join of pairedBy, one table after another: the token that `key` spent, the person it
-- produced, and the device that still belongs to that person.
abbrev pub replay_device : String → Bool → UserRow → Option DeviceRow → Option Identity
replay_device key created u none = none
replay_device key created u (some d) =
    some (record { user_id = u.user_id; label = u.label; created = created })

abbrev pub replay_user : String → TokenRow → Option UserRow → Db → Option Identity
replay_user key r none db = none
replay_user key r (some u) db =
    replay_device key r.created_person u
      (select (λ d. same d.device_key key && holds r.paired_user_id d.user_id) db.devices)

abbrev pub replay_token : String → Option TokenRow → Db → Option Identity
replay_token key none db = none
replay_token key (some r) db =
    replay_user key r (select (λ u. holds r.paired_user_id u.user_id) db.users) db

unfoldable pub paired_by : String → String → Db → Option Identity
paired_by t key db =
    replay_token key
      (select (λ r. is_token t r && not (unspent r) && holds r.used_by key) db.tokens) db

abbrev pub first_person : List UserRow → Tx Identity
first_person [] = fail internal
first_person (u ∷ _) = pure (record { user_id = u.user_id; label = u.label; created = false })

-- soleUser.
unfoldable pub sole_user : Tx Identity
sole_user = do people ← read (λ db. db.users); first_person people

unfoldable pub resolve_sole_person : Entropy → ℕ → Tx Identity
resolve_sole_person rnd now = do
  people ← read count_people
  if people == 1
      then sole_user
      else if people == 0
      then (do id ← insert_user rnd now; pure (record id { created = true }))
      else fail token_invalid

-- pairByMachineLink after the look for a lost reply: the identity, and whether this call joined.
unfoldable pub join_by_machine_link :
    Entropy → PairToken → String → String → ℕ → Tx (Identity × Bool)
join_by_machine_link rnd pt key platform now = do
  require (not pt.used) token_invalid
  require (ltb now pt.expires_at) token_expired
  spend_token pt.token key now
  id ← resolve_sole_person rnd now
  bind_device key id.user_id platform now
  record_outcome pt.token id
  pure (id, true)

-- A token that this very device spent is answered as it was the first time.
abbrev pub join_or_replay_link :
    Option Identity → Entropy → PairToken → String → String → ℕ → Tx (Identity × Bool)
join_or_replay_link none rnd pt key platform now = join_by_machine_link rnd pt key platform now
join_or_replay_link (some id) rnd pt key platform now = pure (id, false)

unfoldable pub pair_by_machine_link :
    Entropy → PairToken → String → String → ℕ → Tx (Identity × Bool)
pair_by_machine_link rnd pt key platform now = do
  replay ← read (paired_by pt.token key)
  join_or_replay_link replay rnd pt key platform now
