-- ===== src/Store/Addresses/Laws.antt =====
-- internal/store/addresses.go: reading after SetAddress.
use nox_app.Base.{
  String, ◌≡◌, refl, ap, Bool, true, false, some, inl, inr, Option-cases, Bool-cases, same, same→eq,
  sym, arith, if◌then◌else◌,
}
use nox_app.Db.{Db, ServerRow}
use nox_app.Tx.{ok}
use nox_app.Store.Tokens.{text_of}
use nox_app.Store.Addresses.{
  AddressKind, address_public, address_onion, other_address, Addresses, value, param, addresses_of,
  addresses, null_if_empty, update_identity_row, set_address,
}

abbrev pub same_kind : AddressKind → AddressKind → Bool
same_kind address_public address_public = true
same_kind address_onion address_onion = true
same_kind (other_address s) (other_address t) = same s t
same_kind _ _ = false

text_of-null_if_empty : (v : String) → text_of (null_if_empty v) ≡ v
unfolding null_if_empty
text_of-null_if_empty v = elim (Bool-cases (same v "")) [
  | inl h ↦ rw h (sym (same→eq v "" h))
  | inr h ↦ rw h refl
]

value-public :
    (k : AddressKind) (v : String) (r : ServerRow)
    → value (addresses_of (record r { public_address = null_if_empty v })) k
      ≡ (if same_kind k address_public then v else value (addresses_of r) k)
value-public address_public v r = text_of-null_if_empty v
value-public address_onion v r = refl
value-public (other_address s) v r = refl

value-onion :
    (k : AddressKind) (v : String) (r : ServerRow)
    → value (addresses_of (record r { onion_address = null_if_empty v })) k
      ≡ (if same_kind k address_onion then v else value (addresses_of r) k)
value-onion address_public v r = refl
value-onion address_onion v r = text_of-null_if_empty v
value-onion (other_address s) v r = refl

param_kept :
    (k : AddressKind) (r r' : ServerRow)
    → r'.public_address_param ≡ r.public_address_param
    → r'.onion_address_param ≡ r.onion_address_param
    → param (addresses_of r') k ≡ param (addresses_of r) k
param_kept address_public r r' p o = ap text_of p
param_kept address_onion r r' p o = ap text_of o
param_kept (other_address s) r r' p o = refl

-- After an address is set, or cleared by an empty text, that kind reads as the text, the other
-- kind reads as before, and so do both remembered parameters.
pub addresses-set_address :
    (kind k : AddressKind) (v : String) (db db' : Db) (a : Addresses)
    → addresses db ≡ ok a
    → set_address kind v db ≡ ok (tt, db')
    → (b : Addresses) × (addresses db' ≡ ok b)
      × (value b k ≡ (if same_kind k kind then v else value a k))
      × (param b k ≡ param a k)
unfolding addresses set_address update_identity_row
addresses-set_address address_public k v db db' a h e = elim (Option-cases db.server_identity) [
  | inl none_yet ↦ absurd (ground arith)
  | inr (r, there) ↦
      let r' : ServerRow = record r { public_address = null_if_empty v } in
      let whole : db'.server_identity ≡ some r' = ground arith in
      let old : addresses_of r ≡ a = ground arith in
      (
        addresses_of r',
        rw whole refl,
        rw (sym old) (value-public k v r),
        rw (sym old) (param_kept k r r' refl refl),
      )
]
addresses-set_address address_onion k v db db' a h e = elim (Option-cases db.server_identity) [
  | inl none_yet ↦ absurd (ground arith)
  | inr (r, there) ↦
      let r' : ServerRow = record r { onion_address = null_if_empty v } in
      let whole : db'.server_identity ≡ some r' = ground arith in
      let old : addresses_of r ≡ a = ground arith in
      (
        addresses_of r',
        rw whole refl,
        rw (sym old) (value-onion k v r),
        rw (sym old) (param_kept k r r' refl refl),
      )
]
addresses-set_address (other_address s) k v db db' a h e = absurd (ground arith)
