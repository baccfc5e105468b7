-- ===== src/Store/ServerKey.antt =====
-- internal/store/serverkey.go: the machine's key pair. The codec is base64, the key source
-- RustSecureBox.
pub mod Laws
use nox_app.Base.{
  ℕ, String, Bool, true, false, not, ◌&&◌, Option, none, some, List, [], ◌∷◌, same, length, ◌==◌,
  if◌then◌else◌,
}
use nox_app.Db.{Db, ServerRow}
use nox_app.Tx.{
  Tx, Result, ok, err, pure, fail, ◌>>=◌, ◌>>◌, read, write, require, internal, no_server_identity,
}
use nox_app.Store.Identity.{count_people}

-- A key, its bytes.
abbrev pub Key : Type 0
Key = List ℕ

abbrev pub key_size : ℕ
key_size = 32

pub record Codec : Type 0 where
  pub encode : Key → String
  pub decode : String → Option Key

pub record KeyPair : Type 0 where
  pub public_key : Key
  pub private_key : Key

pub record KeySource : Type 0 where
  pub generated : Option KeyPair
  pub public_of : Key → Option Key

unfoldable pub same_bytes : Key → Key → Bool
same_bytes [] [] = true
same_bytes (b ∷ bs) (c ∷ cs) = b == c && same_bytes bs cs
same_bytes _ _ = false

abbrev pub or_internal {ℓ} : {A : Type ℓ} → Option A → Result A
or_internal none = err internal
or_internal (some a) = ok a

abbrev pub sized : Option Key → Result Key
sized none = err internal
sized (some k) = if length k == key_size then ok k else err internal

abbrev pub lift_result : {A : Type 0} → Result A → Tx A
lift_result (ok a) = pure a
lift_result (err e) = fail e

module _ (codec : Codec) where
  open codec use {encode, decode}

  unfoldable pub decode_server_public_key : String → Result Key
  decode_server_public_key b64 = sized (decode b64)

  abbrev pub public_in : Option ServerRow → Result Key
  public_in none = err no_server_identity
  public_in (some r) = decode_server_public_key r.public_key

  unfoldable pub read_server_identity : Db → Result Key
  read_server_identity db = public_in db.server_identity

  abbrev pub fresh_row : KeyPair → ServerRow
  fresh_row p = record {
    public_key = encode p.public_key;
    private_key = encode p.private_key;
    public_address = none;
    onion_address = none;
    public_address_param = none;
    onion_address_param = none;
  }

  -- EnsureServerIdentity where no row is there.
  unfoldable pub mint_server_identity : KeySource → Tx Key
  mint_server_identity keys = do
    people ← read count_people
    require (people == 0) internal
    p ← lift_result (or_internal keys.generated)
    require (not (same (encode p.public_key) "") && not (same (encode p.private_key) "")) internal
    write (λ db. record db { server_identity = some (fresh_row p) })
    pure p.public_key

  abbrev pub ensure_from : Option ServerRow → KeySource → Tx Key
  ensure_from none keys = mint_server_identity keys
  ensure_from (some r) keys = lift_result (decode_server_public_key r.public_key)

  unfoldable pub ensure_server_identity : KeySource → Tx Key
  ensure_server_identity keys = do row ← read (λ db. db.server_identity); ensure_from row keys

  abbrev pub rekeyed_row : Key → Option ServerRow → Option ServerRow
  rekeyed_row k none = none
  rekeyed_row k (some r) = some (record r { public_key = encode k })

  unfoldable pub rekey_server_identity : Key → Tx (Unit {0})
  rekey_server_identity k = do
    write (λ db. record db { requests = []; tokens = []; devices = [] })
    require (not (same (encode k) "")) internal
    write (λ db. record db { server_identity = rekeyed_row k db.server_identity })

  -- ServerKey once both columns are decoded and the public key of the private one is known: the
  -- private key, and whether the devices were let go.
  unfoldable pub reconcile : Key → Key → Key → Tx (Key × Bool)
  reconcile own stored public =
      if same_bytes stored public
      then pure (own, false)
      else (rekey_server_identity public >> pure (own, true))

  unfoldable pub server_key_of : KeySource → ServerRow → Tx (Key × Bool)
  server_key_of keys r = do
    own ← lift_result (sized (decode r.private_key))
    stored ← lift_result (decode_server_public_key r.public_key)
    public ← lift_result (or_internal (keys.public_of own))
    reconcile own stored public

  abbrev pub key_of_row : KeySource → Option ServerRow → Tx (Key × Bool)
  key_of_row keys none = fail no_server_identity
  key_of_row keys (some r) = server_key_of keys r

  -- ServerKey, where `seen` is the database as the read pool showed it.
  unfoldable pub server_key : KeySource → Db → Tx (Key × Bool)
  server_key keys seen = key_of_row keys seen.server_identity
