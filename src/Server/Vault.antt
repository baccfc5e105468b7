-- ===== src/Server/Vault.antt =====
-- internal/vault/vault.go: the key file, which holds the data key sealed with the password. Argon2id,
-- the AEAD, JSON and the tests on a password's characters are a parameter.
pub mod Laws
use nox_app.Base.{
  ℕ, ◌+◌, ◌*◌, String, Bool, true, false, not, ◌&&◌, ◌||◌, Option, none, some, length, ltb, ◌==◌,
  if◌then◌else◌, same,
}
use nox_app.Server.PairingLink.{Bytes}

abbrev pub key_size : ℕ
key_size = 32

abbrev pub min_password_chars : ℕ
min_password_chars = 12

abbrev pub file_version : ℕ
file_version = 1

abbrev pub kdf_name : String
kdf_name = "argon2id"

abbrev pub salt_size : ℕ
salt_size = 16

abbrev pub nonce_size : ℕ
nonce_size = 24

abbrev pub overhead : ℕ
overhead = 16

abbrev pub max_key_file_bytes : ℕ
max_key_file_bytes = 64 * 1024

abbrev pub max_memory_kib : ℕ
max_memory_kib = 1024 * 1024

abbrev pub max_iterations : ℕ
max_iterations = 64

abbrev pub max_parallelism : ℕ
max_parallelism = 64

pub data VaultError : Type 0 where
  wrong_password : VaultError
  short_password : VaultError
  exists : VaultError
  malformed_file : VaultError
  -- Reading, writing or the random number generator failed.
  io_failed : VaultError

pub data Vaulted (A : Type 0) : Type 0 where
  vaulted : A → Vaulted A
  declined : VaultError → Vaulted A

pub record Params : Type 0 where
  pub memory_kib : ℕ
  pub iterations : ℕ
  pub parallelism : ℕ

pub record KeyFile : Type 0 where
  pub version : ℕ
  pub kdf : String
  pub costs : Params
  pub salt : Bytes
  pub nonce : Bytes
  pub sealed : Bytes

pub record VaultLib : Type 0 where
  pub rune_count : String → ℕ
  pub is_blank : String → Bool
  pub derive : String → Bytes → Params → Bytes
  -- Seal and Open, of the key, the nonce and the text, with the data sealedAAD.
  pub aead_seal : Bytes → Bytes → Bytes → Bytes
  pub aead_open : Bytes → Bytes → Bytes → Option Bytes
  pub put_file : KeyFile → Bytes
  pub get_file : Bytes → Option KeyFile

-- check, of the costs.
abbrev pub in_bounds : Params → Bool
in_bounds p = not (
    ltb p.parallelism 1
    || ltb max_parallelism p.parallelism
    || ltb p.iterations 1
    || ltb max_iterations p.iterations
    || ltb p.memory_kib (8 * p.parallelism)
    || ltb max_memory_kib p.memory_kib)

abbrev pub is_key_file : KeyFile → Bool
is_key_file kf =
    kf.version == file_version
    && same kf.kdf kdf_name
    && in_bounds kf.costs
    && length kf.salt == salt_size
    && length kf.nonce == nonce_size
    && length kf.sealed == key_size + overhead

-- What the random number generator gives a seal.
pub record Draw : Type 0 where
  pub salt : Bytes
  pub nonce : Bytes

-- How a write of the key file ends: the old file is left, the new one is in place though the
-- directory was not flushed, or all is done.
pub data Write : Type 0 where
  not_written : Write
  not_flushed : Write
  written : Write

-- The key file on disk, and what a call made of it.
abbrev pub Disk : Type 0
Disk = Option Bytes

unfoldable pub write_file : Write → Bytes → Disk → Disk × Bool
write_file not_written bytes disk = (disk, false)
write_file not_flushed bytes disk = (some bytes, false)
write_file written bytes disk = (some bytes, true)

module _ (lib : VaultLib) where
  unfoldable pub check_password : String → Bool
  check_password p = not (ltb (lib.rune_count p) min_password_chars || lib.is_blank p)

  unfoldable pub parse : Bytes → Vaulted KeyFile
  parse bytes = elim (lib.get_file bytes) [
    | none ↦ declined malformed_file
    | some kf ↦
        if not (ltb max_key_file_bytes (length bytes)) && is_key_file kf
        then vaulted kf
        else declined malformed_file
  ]

  abbrev open_sealed : Option Bytes → Vaulted Bytes
  open_sealed none = declined wrong_password
  open_sealed (some key) = vaulted key

  unfoldable pub unseal : Bytes → String → Vaulted Bytes
  unfolding parse
  unseal bytes password = elim (parse bytes) [
    | declined e ↦ declined e
    | vaulted kf ↦
        open_sealed (lib.aead_open (lib.derive password kf.salt kf.costs) kf.nonce kf.sealed)
  ]

  -- The key file of a key, a password and a draw.
  abbrev pub file_of : Bytes → String → Params → Draw → KeyFile
  file_of key password params d = record {
    version = file_version;
    kdf = kdf_name;
    costs = params;
    salt = d.salt;
    nonce = d.nonce;
    sealed = lib.aead_seal (lib.derive password d.salt params) d.nonce key;
  }

  unfoldable pub seal : Bytes → String → Params → Option Draw → Vaulted Bytes
  seal key password params none = declined io_failed
  seal key password params (some d) =
      if in_bounds params
      then vaulted (lib.put_file (file_of key password params d))
      else declined malformed_file

  -- ReadFile, of a file that can be read or not.
  unfoldable pub read_file : Bool → Disk → Vaulted Bytes
  read_file readable none = declined io_failed
  read_file readable (some bytes) =
      if not readable
      then declined io_failed
      else if ltb max_key_file_bytes (length bytes)
      then declined malformed_file
      else vaulted bytes

  unfoldable pub open_file : Bool → Disk → String → Vaulted Bytes
  unfolding read_file unseal
  open_file readable disk password = elim (read_file readable disk) [
    | declined e ↦ declined e
    | vaulted bytes ↦ unseal bytes password
  ]

  -- The new file in place of the old, and what the call returns.
  unfoldable pub put_sealed : {A : Type 0} → Write → A → Vaulted Bytes → Disk → Disk × Vaulted A
  unfolding write_file
  put_sealed w result (declined e) disk = (disk, declined e)
  put_sealed w result (vaulted bytes) disk =
      let after = write_file w bytes disk in
      (after.0, if after.1 then vaulted result else declined io_failed)

  -- The draw of the key is none where it failed, or where the path could not be looked at.
  unfoldable pub create :
      String → Params → Option Bytes → Option Draw → Write → Disk → Disk × Vaulted Bytes
  create password params key d w (some file) =
      (some file, if check_password password then declined exists else declined short_password)
  create password params none d w none =
      (none, if check_password password then declined io_failed else declined short_password)
  create password params (some key) d w none =
      if check_password password
      then put_sealed w key (seal key password params d) none
      else (none, declined short_password)

  unfoldable pub change :
      String → String → Params → Option Draw → Write → Bool → Disk → Disk × Vaulted (Unit {0})
  unfolding open_file seal put_sealed
  change current next params d w readable disk =
      let made : Disk × Vaulted (Unit {0}) = elim (open_file readable disk current) [
        | declined e ↦ (disk, declined e)
        | vaulted key ↦ put_sealed w tt (seal key next params d) disk
      ] in
      if check_password next then made else (disk, declined short_password)
