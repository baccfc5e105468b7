-- ===== src/Server/Vault/Laws.antt =====
-- internal/vault/vault.go: what is sealed is opened again.
use nox_app.Base.{
  ◌+◌, ◌*◌, ◌≤◌, ◌≡◌, refl, ap, sym, ◌∙◌, inl, inr, ◌⊎◌, String, true, Option, none, some, length,
  same_refl, arith, Bool-cases, All,
}
use nox_app.Server.PairingLink.{Bytes}
use nox_app.Server.PairingLink.Laws.{IsByte}
use nox_app.Server.Vault.{
  key_size, salt_size, nonce_size, overhead, VaultError, kdf_name, file_version, Vaulted, vaulted,
  declined, Params, KeyFile, VaultLib, in_bounds, Draw, parse, unseal, file_of, seal,
}

-- A key file as seal writes it: bytes, and costs within their bounds.
pub record IsWritten (kf : KeyFile) : Type 0 where
  pub versioned : kf.version ≡ file_version
  pub named : kf.kdf ≡ kdf_name
  pub bounded : in_bounds kf.costs ≡ true
  pub salt_bytes : All IsByte kf.salt
  pub nonce_bytes : All IsByte kf.nonce
  pub sealed_bytes : All IsByte kf.sealed

-- What the key file relies on of XChaCha20-Poly1305 under a key of Argon2id, and of package json.
pub record VaultLaws (lib : VaultLib) : Type 0 where
  pub opens :
      (password : String) (salt n key : Bytes) (costs : Params)
      → in_bounds costs ≡ true
      → length n ≡ nonce_size
      → All IsByte key
      → lib.aead_open
          (lib.derive password salt costs)
          n
          (lib.aead_seal (lib.derive password salt costs) n key)
        ≡ some key
  pub sealed_length :
      (password : String) (salt n key : Bytes) (costs : Params)
      → in_bounds costs ≡ true
      → length n ≡ nonce_size
      → length (lib.aead_seal (lib.derive password salt costs) n key) ≡ length key + overhead
  pub sealed_bytes :
      (password : String) (salt n key : Bytes) (costs : Params)
      → in_bounds costs ≡ true
      → length n ≡ nonce_size
      → All IsByte key
      → All IsByte (lib.aead_seal (lib.derive password salt costs) n key)
  pub reads_file : (kf : KeyFile) → IsWritten kf → lib.get_file (lib.put_file kf) ≡ some kf
  pub file_length :
      (kf : KeyFile)
      → IsWritten kf
      → length (lib.put_file kf) ≤ 2 * (length kf.salt + length kf.nonce + length kf.sealed) + 1024

-- A data key: 32 bytes.
abbrev pub IsDataKey : Bytes → Type 0
IsDataKey key = (length key ≡ key_size) × All IsByte key

-- A draw of the sizes that are asked of the random number generator.
abbrev pub IsFitting : Option Draw → Type 0
IsFitting none = Unit
IsFitting (some d) =
    ((length d.salt ≡ salt_size) × All IsByte d.salt)
    × ((length d.nonce ≡ nonce_size) × All IsByte d.nonce)

pub Vaulted-cases :
    {A : Type 0} (v : Vaulted A)
    → ((a : A) × (v ≡ vaulted a)) ⊎ ((e : VaultError) × (v ≡ declined e))
Vaulted-cases (vaulted a) = inl (a, refl)
Vaulted-cases (declined e) = inr (e, refl)

pub vaulted_inj : {A : Type 0} (x y : A) → vaulted x ≡ vaulted y → x ≡ y
vaulted_inj x y e = ground arith

module _ (lib : VaultLib) (laws : VaultLaws lib) where
  file_of-IsWritten :
      (key : Bytes) (password : String) (params : Params) (d : Draw)
      → IsDataKey key
      → in_bounds params ≡ true
      → IsFitting (some d)
      → IsWritten (file_of lib key password params d)
  file_of-IsWritten key password params d k b f = record {
    versioned = refl;
    named = refl;
    bounded = b;
    salt_bytes = f.0.1;
    nonce_bytes = f.1.1;
    sealed_bytes = laws.sealed_bytes password d.salt d.nonce key params b f.1.0 k.1;
  }

  parse-file_of :
      (key : Bytes) (password : String) (params : Params) (d : Draw)
      → IsDataKey key
      → in_bounds params ≡ true
      → IsFitting (some d)
      → parse lib (lib.put_file (file_of lib key password params d))
        ≡ vaulted (file_of lib key password params d)
  unfolding parse
  parse-file_of key password params d k b f =
      let w = file_of-IsWritten key password params d k b f in
      ground (
        arith,
        laws.reads_file (file_of lib key password params d) w,
        laws.file_length (file_of lib key password params d) w,
        laws.sealed_length password d.salt d.nonce key params b f.1.0,
        same_refl "argon2id",
        f.0.0,
        f.1.0,
        k.0,
      )

  unseal_parsed :
      (bytes : Bytes) (password : String) (kf : KeyFile) (key : Bytes)
      → parse lib bytes ≡ vaulted kf
      → lib.aead_open (lib.derive password kf.salt kf.costs) kf.nonce kf.sealed ≡ some key
      → unseal lib bytes password ≡ vaulted key
  unfolding unseal
  unseal_parsed bytes password kf key p o = rw (unseal, p, o) refl

  pub unseal-seal :
      (key : Bytes) (password : String) (params : Params) (d : Option Draw) (bytes : Bytes)
      → IsDataKey key
      → IsFitting d
      → seal lib key password params d ≡ vaulted bytes
      → unseal lib bytes password ≡ vaulted key
  unfolding seal
  unseal-seal key password params none bytes k f h = ground arith
  unseal-seal key password params (some d) bytes k f h = elim (Bool-cases (in_bounds params)) [
    | inr n ↦ ground arith
    | inl b ↦
        ap (λ z. unseal lib z password)
          (sym
            (vaulted_inj (lib.put_file (file_of lib key password params d)) bytes (ground arith)))
        ∙ unseal_parsed (lib.put_file (file_of lib key password params d)) password
            (file_of lib key password params d) key (parse-file_of key password params d k b f)
            (laws.opens password d.salt d.nonce key params b f.1.0 k.1)
  ]
