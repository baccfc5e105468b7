-- ===== src/Store/Addresses.antt =====
-- internal/store/addresses.go: where the machine can be reached, and the start parameter that each
-- address was last written from.
pub mod Laws
use nox_app.Base.{ℕ, String, Bool, true, false, not, ◌&&◌, Option, none, some, same, if◌then◌else◌}
use nox_app.Db.{Db, ServerRow}
use nox_app.Tx.{
  Tx, Result, ok, err, pure, fail, ◌>>=◌, ◌>>◌, read, write, require, internal, no_server_identity,
  unknown_address_kind,
}
use nox_app.Store.Tokens.{text_of}

pub data AddressKind : Type 0 where
  address_public address_onion : AddressKind
  other_address : String → AddressKind

pub record Addresses : Type 0 where
  pub public : String
  pub onion : String
  pub public_param : String
  pub onion_param : String

abbrev pub value : Addresses → AddressKind → String
value a address_public = a.public
value a address_onion = a.onion
value a (other_address _) = ""

abbrev pub param : Addresses → AddressKind → String
param a address_public = a.public_param
param a address_onion = a.onion_param
param a (other_address _) = ""

abbrev pub addresses_of : ServerRow → Addresses
addresses_of r = record {
  public = text_of r.public_address;
  onion = text_of r.onion_address;
  public_param = text_of r.public_address_param;
  onion_param = text_of r.onion_address_param;
}

abbrev pub scan_addresses : Option ServerRow → Result Addresses
scan_addresses none = err no_server_identity
scan_addresses (some r) = ok (addresses_of r)

unfoldable pub addresses : Db → Result Addresses
addresses db = scan_addresses db.server_identity

unfoldable pub null_if_empty : String → Option String
null_if_empty v = if same v "" then none else some v

-- The UPDATE, and the refusal where no row was there.
unfoldable pub update_identity_row : (ServerRow → ServerRow) → Tx (Unit {0})
update_identity_row f = do
  row ← read (λ db. db.server_identity)
  elim row [
    | none ↦ fail no_server_identity
    | some r ↦ write (λ db. record db { server_identity = some (f r) })
  ]

unfoldable pub set_address : AddressKind → String → Tx (Unit {0})
set_address address_public v =
    update_identity_row (λ r. record r { public_address = null_if_empty v })
set_address address_onion v =
    update_identity_row (λ r. record r { onion_address = null_if_empty v })
set_address (other_address _) v = fail unknown_address_kind

-- ApplyAddressParam once the value and the parameter are known to be there.
abbrev pub apply_to : AddressKind → String → String → Tx (Unit {0})
apply_to address_public v p =
    update_identity_row (λ r. record r { public_address = some v; public_address_param = some p })
apply_to address_onion v p =
    update_identity_row (λ r. record r { onion_address = some v; onion_address_param = some p })
apply_to (other_address _) v p = fail unknown_address_kind

unfoldable pub apply_address_param : AddressKind → String → String → Tx (Unit {0})
apply_address_param kind v p = do
  require (not (same v "") && not (same p "")) internal
  apply_to kind v p
