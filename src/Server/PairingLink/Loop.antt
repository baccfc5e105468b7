-- ===== src/Server/PairingLink/Loop.antt =====
-- internal/server/pairing_link.go: the loop of ParsePairingLink over the addresses that were written.
use nox_app.Base.{
  append-nil, append_assoc, ℕ, zero, suc, ◌+◌, ◌-◌, ◌≤◌, ◌<◌, ◌≡◌, refl, ap, sym, ◌∙◌, false,
  Option, none, some, List, [], ◌∷◌, ◌++◌, length, length-append, ltb, arith,
}
use nox_app.Server.PairingLink.{Bytes, NetLib, done, type_onion}
use nox_app.Server.PairingLink.Parse.{Reading, direct_read, read_address}
use nox_app.Server.PairingLink.Laws.{take-append, drop-append}
use nox_app.Server.PairingLink.Address.{spelled}
use nox_app.Server.PairingLink.{key_size}
use nox_app.Server.PairingLink.Parse.{onion_read, read_addresses}
use nox_app.Server.PairingLink.Written.{IsWritten, AreWritten, none_written, one_written}

-- What the loop has read after the addresses of a list.
abbrev pub all_read : NetLib → List Bytes → Reading → Reading
all_read net [] r = r
all_read net (addr ∷ addrs) r = all_read net addrs (direct_read (spelled net addr) r)

onion_layout :
    (onion : Bytes)
    → length onion ≡ key_size
    → type_onion ∷ key_size ∷ onion ≡ type_onion ∷ length onion ∷ (onion ++ [])
onion_layout onion h =
    ap (λ n. type_onion ∷ n ∷ onion) (sym h)
    ∙ ap (λ z. type_onion ∷ length onion ∷ z) (sym (append-nil onion))

not_short : (value rest : Bytes) → ltb (length (value ++ rest)) (length value) ≡ false
not_short value rest = ground (arith, length-append value rest)

module _ (net : NetLib) where
  -- One address read, whatever follows it.
  read_next :
      (fuel kind : ℕ) (value rest : Bytes) (r r' : Reading)
      → read_address net kind value r ≡ done r'
      → read_addresses net (suc fuel) (kind ∷ length value ∷ (value ++ rest)) r
        ≡ read_addresses net fuel rest r'
  unfolding read_addresses
  read_next fuel kind value rest r r' h =
      rw (not_short value rest, take-append value rest, h, drop-append value rest) refl

  read_one :
      (fuel : ℕ) (addr w rest : Bytes) (r : Reading)
      → IsWritten net addr w
      → read_addresses net (suc fuel) (w ++ rest) r
        ≡ read_addresses net fuel rest (direct_read (spelled net addr) r)
  read_one fuel addr w rest r i =
      ap (λ z. read_addresses net (suc fuel) (z ++ rest) r) i.layout
      ∙ read_next fuel i.kind i.value rest r (direct_read (spelled net addr) r) (i.reads r)

  read_all :
      (fuel left : ℕ) {direct : List Bytes} {ws : Bytes} (rest : Bytes) (r : Reading)
      → AreWritten net direct ws
      → fuel ≡ length direct + left
      → read_addresses net fuel (ws ++ rest) r
        ≡ read_addresses net left rest (all_read net direct r)
  read_all fuel left rest r none_written e = ap (λ n. read_addresses net n rest r) (omega arith)
  read_all zero left rest r (one_written addr addrs w ws i more) e = ground arith
  read_all (suc fuel) left rest r (one_written addr addrs w ws i more) e =
      ap (λ z. read_addresses net (suc fuel) z r) (append_assoc w ws rest)
      ∙ read_one fuel addr w (ws ++ rest) r i
      ∙ read_all fuel left rest (direct_read (spelled net addr) r) more (omega arith)

  -- What stands after the addresses: the onion service, or nothing.
  abbrev pub onion_bytes : Option Bytes → Bytes
  onion_bytes none = []
  onion_bytes (some onion) = type_onion ∷ key_size ∷ onion

  abbrev pub with_onion : Option Bytes → Reading → Reading
  with_onion none r = r
  with_onion (some onion) r = onion_read onion r

  abbrev pub HasOnionSize : Option Bytes → Type 0
  HasOnionSize none = Unit
  HasOnionSize (some onion) = length onion ≡ key_size

  read_service :
      (onion : Bytes) (r : Reading)
      → length onion ≡ key_size
      → read_address net type_onion onion r ≡ done (onion_read onion r)
  unfolding read_address
  read_service onion r h = ground arith

  read_end : (left : ℕ) (r : Reading) → 0 < left → read_addresses net left [] r ≡ done r
  unfolding read_addresses
  read_end zero r h = ground arith
  read_end (suc left) r h = refl

  read_tail :
      (left : ℕ) (onion : Option Bytes) (r : Reading)
      → HasOnionSize onion
      → length (onion_bytes onion) < left
      → read_addresses net left (onion_bytes onion) r ≡ done (with_onion onion r)
  read_tail left none r s h = read_end left r h
  read_tail zero (some onion) r s h = ground arith
  read_tail (suc left) (some onion) r s h =
      ap (λ z. read_addresses net (suc left) z r) (onion_layout onion s)
      ∙ read_next left type_onion onion [] r (onion_read onion r) (read_service onion r s)
      ∙ read_end left (onion_read onion r) (omega arith)

  pub AreWritten-length :
      {direct : List Bytes} {ws : Bytes} → AreWritten net direct ws → length direct ≤ length ws
  AreWritten-length none_written = omega arith
  AreWritten-length (one_written addr addrs w ws i more) =
      omega (arith, AreWritten-length more, length-append w ws, ap length i.layout)

  pub read_rest :
      (direct : List Bytes) (ws : Bytes) (onion : Option Bytes) (r : Reading)
      → AreWritten net direct ws
      → HasOnionSize onion
      → read_addresses net (suc (length (ws ++ onion_bytes onion))) (ws ++ onion_bytes onion) r
        ≡ done (with_onion onion (all_read net direct r))
  read_rest direct ws onion r w s =
      let left = suc (length (ws ++ onion_bytes onion)) - length direct in
      read_all (suc (length (ws ++ onion_bytes onion))) left (onion_bytes onion) r w
        (omega (arith, AreWritten-length w, length-append ws (onion_bytes onion)))
      ∙ read_tail left onion (all_read net direct r) s
          (omega (arith, AreWritten-length w, length-append ws (onion_bytes onion)))
