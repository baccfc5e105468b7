-- ===== src/Store/Tests/Machine.antt =====
-- The machine's row run on a concrete store.
use nox_app.Base.{
  some_inj, ℕ, ◌≡◌, refl, subst, false, none, some, List, [], ◌∷◌, key_dec, same, length,
  if◌then◌else◌,
}
use nox_app.Db.{Db, ServerRow}
use nox_app.Tx.{ok}
use nox_app.Store.Addresses.{
  Addresses, address_public, value, param, addresses, set_address, update_identity_row,
  null_if_empty,
}
use nox_app.Store.Addresses.Laws.{addresses-set_address}
use nox_app.Store.ServerKey.{
  Key, Codec, KeyPair, KeySource, same_bytes, server_key, server_key_of, reconcile,
  rekey_server_identity, decode_server_public_key,
}
use nox_app.Store.ServerKey.Laws.{server_key_rekeyed}
use nox_app.Store.Tests.{home, after}

abbrev eight : ℕ → List ℕ → List ℕ
eight b rest = b ∷ b ∷ b ∷ b ∷ b ∷ b ∷ b ∷ b ∷ rest

-- A key of one byte, 32 times.
abbrev pub key_of : ℕ → Key
key_of b = eight b (eight b (eight b (eight b [])))

-- A codec of the keys that the runs meet.
abbrev pub codec : Codec
codec = record {
  encode = λ k. if same_bytes k (key_of 7) then "seven" else "other";
  decode = λ s.
      if same s "seven" then some (key_of 7) else if same s "old" then some (key_of 1) else none;
}

abbrev pub made : KeyPair
made = record { public_key = key_of 7; private_key = key_of 1 }

abbrev pub keys : KeySource
keys = record { generated = some made; public_of = λ k. some (key_of 7) }

pub known : codec.decode (codec.encode (key_of 7)) ≡ some (key_of 7)
unfolding key_dec same_bytes
known = refl

abbrev pub machine_row : ServerRow
machine_row = record {
  public_key = "old";
  private_key = "old";
  public_address = some "nox.example";
  onion_address = none;
  public_address_param = some "nox.example";
  onion_address_param = none;
}

abbrev machine : Db
machine = record home { server_identity = some machine_row }

abbrev found : Addresses
found = record {
  public = "nox.example";
  onion = "";
  public_param = "nox.example";
  onion_param = "";
}

addresses-set_address_example :
    (b : Addresses) × (addresses (after (set_address address_public "") machine) ≡ ok b)
    × (value b address_public ≡ "")
    × (param b address_public ≡ "nox.example")
unfolding key_dec addresses set_address update_identity_row null_if_empty
addresses-set_address_example =
    addresses-set_address address_public address_public "" machine
      (after (set_address address_public "") machine) found refl refl

abbrev rekeyed : Db
rekeyed = after (server_key codec keys machine) machine

server_key_rekeyed_example :
    (rekeyed.users ≡ machine.users)
    × (rekeyed.devices ≡ [])
    × (rekeyed.tokens ≡ [])
    × (rekeyed.requests ≡ [])
    × (server_key codec keys rekeyed rekeyed ≡ ok ((key_of 1, false), rekeyed))
unfolding key_dec same_bytes server_key server_key_of reconcile rekey_server_identity
    decode_server_public_key
server_key_rekeyed_example =
    server_key_rekeyed codec keys machine rekeyed (key_of 1)
      (λ k p e. subst (λ q. codec.decode (codec.encode q) ≡ some q) (some_inj (key_of 7) p e) known)
      (λ k p e. subst (λ q. length q ≡ 32) (some_inj (key_of 7) p e) refl) refl
