-- ===== src/Server/PairingLink/RoundTrip.antt =====
-- internal/server/pairing_link.go: a link that is built is read back.
use nox_app.Base.{
  append-nil, append_assoc, ℕ, suc, ◌+◌, ◌≡◌, refl, ap, sym, ◌∙◌, inl, inr, false, ◌&&◌, Option,
  none, some, List, [], ◌∷◌, ◌++◌, length, length-append, take, drop, ltb, ◌==◌, arith, All,
  Bool-cases,
}
use nox_app.Sql.Laws.{All-append}
use nox_app.Server.PairingLink.{Bytes, NetLib, done, type_onion}
use nox_app.Server.PairingLink.Parse.{Reading, direct_read}
use nox_app.Server.PairingLink.Laws.{IsByte, NetLaws, take-append, drop-append}
use nox_app.Server.PairingLink.{append_onion}
use nox_app.Server.PairingLink.Address.{spelled, done_inj}
use nox_app.Base.{map, is_none}
use nox_app.Server.PairingLink.{
  PairingLink, key_size, link_header_size, pairing_link_version, pairing_link_prefix, cut_prefix,
  is_empty,
}
use nox_app.Server.PairingLink.Parse.{
  nothing_read, read_addresses, finish, parse_payload, parse_pairing_link,
}
use nox_app.Server.PairingLink.Laws.{IsGraphic}
use nox_app.Server.PairingLink.Written.{AreWritten}
use nox_app.Server.PairingLink.Loop.{all_read, read_rest, onion_bytes, with_onion, HasOnionSize}

take_at {ℓ} : {A : Type ℓ} (n : ℕ) (xs ys : List A) → length xs ≡ n → take n (xs ++ ys) ≡ xs
take_at n xs ys h = ap (λ k. take k (xs ++ ys)) (sym h) ∙ take-append xs ys

drop_at {ℓ} : {A : Type ℓ} (n : ℕ) (xs ys : List A) → length xs ≡ n → drop n (xs ++ ys) ≡ ys
drop_at n xs ys h = ap (λ k. drop k (xs ++ ys)) (sym h) ∙ drop-append xs ys

-- The payload of a link: the version, the key, the token and what follows.
abbrev pub payload_of : Bytes → Bytes → Bytes → Bytes
payload_of key tok rest = (pairing_link_version ∷ (key ++ tok)) ++ rest

module _ (key tok rest : Bytes) (k : length key ≡ key_size) (t : length tok ≡ 16) where
  header_key : take key_size (drop 1 (payload_of key tok rest)) ≡ key
  header_key = ap (take key_size) (append_assoc key tok rest) ∙ take_at key_size key (tok ++ rest) k

  header_token : take 16 (drop (1 + key_size) (payload_of key tok rest)) ≡ tok
  header_token =
      ap (λ z. take 16 (drop key_size z)) (append_assoc key tok rest)
      ∙ ap (take 16) (drop_at key_size key (tok ++ rest) k)
      ∙ take_at 16 tok rest t

  header_rest : drop link_header_size (payload_of key tok rest) ≡ rest
  header_rest = drop_at 48 (key ++ tok) rest (omega (arith, length-append key tok))

  header_length : ltb (length (payload_of key tok rest)) link_header_size ≡ false
  header_length = ground (arith, length-append (key ++ tok) rest, length-append key tok)

  parse_payload-payload_of :
      (net : NetLib)
      → parse_payload net (payload_of key tok rest)
        ≡ finish net key tok (read_addresses net (suc (length rest)) rest nothing_read)
  unfolding parse_payload
  parse_payload-payload_of net = rw (header_length, header_key, header_token, header_rest) refl

-- What the loop's reading says of the addresses.
module _ (net : NetLib) where
  direct-all_read :
      (direct : List Bytes) (r : Reading)
      → (all_read net direct r).direct ≡ r.direct ++ map (spelled net) direct
  direct-all_read [] r = sym (append-nil r.direct)
  direct-all_read (a ∷ more) r =
      direct-all_read more (direct_read (spelled net a) r)
      ∙ append_assoc r.direct (spelled net a ∷ []) (map (spelled net) more)

  onion-all_read : (direct : List Bytes) (r : Reading) → (all_read net direct r).onion ≡ r.onion
  onion-all_read [] r = refl
  onion-all_read (a ∷ more) r = onion-all_read more (direct_read (spelled net a) r)

  known-all_read :
      (direct : List Bytes) (r : Reading) → (all_read net direct r).known ≡ r.known + length direct
  known-all_read [] r = omega arith
  known-all_read (a ∷ more) r = omega (arith, known-all_read more (direct_read (spelled net a) r))

  -- The link that a payload's parts make.
  abbrev pub link_of : Bytes → Bytes → List Bytes → Option Bytes → PairingLink
  link_of key tok direct onion = record {
    server_key = key;
    token = net.encode64 tok;
    direct = map (spelled net) direct;
    onion = onion;
  }

  finish-all_read :
      (key tok : Bytes) (direct : List Bytes) (onion : Option Bytes)
      → is_empty direct && is_none onion ≡ false
      → finish net key tok (done (with_onion net onion (all_read net direct nothing_read)))
        ≡ done (link_of key tok direct onion)
  unfolding finish
  finish-all_read key tok direct onion h = ground (
    arith,
    direct-all_read direct nothing_read,
    onion-all_read direct nothing_read,
    known-all_read direct nothing_read,
  )

cut_prefix-append : (s : Bytes) → cut_prefix (pairing_link_prefix ++ s) pairing_link_prefix ≡ some s
unfolding cut_prefix
cut_prefix-append s = refl

prefix-IsGraphic : All IsGraphic pairing_link_prefix
prefix-IsGraphic = ground arith

parse_text :
    (net : NetLib) (link trimmed text payload : Bytes)
    → net.trim_space link ≡ trimmed
    → cut_prefix trimmed pairing_link_prefix ≡ some text
    → net.decode64 text ≡ some payload
    → parse_pairing_link net link ≡ parse_payload net payload
unfolding parse_pairing_link cut_prefix parse_payload
parse_text net link trimmed text payload t c d = rw (t, c, d) refl

module _ (net : NetLib) (laws : NetLaws net) where
  pub read_text :
      (payload : Bytes)
      → All IsByte payload
      → parse_pairing_link net (pairing_link_prefix ++ net.encode64 payload)
        ≡ parse_payload net payload
  read_text payload b =
      parse_text net (pairing_link_prefix ++ net.encode64 payload)
        (pairing_link_prefix ++ net.encode64 payload) (net.encode64 payload) payload
        (laws.trim_graphic (pairing_link_prefix ++ net.encode64 payload) (
          All-append IsGraphic pairing_link_prefix (net.encode64 payload) prefix-IsGraphic
            (laws.encode_graphic payload b)))
        (cut_prefix-append (net.encode64 payload)) (laws.decode_encode payload b)

  -- A payload of the right parts is read as the link they make.
  pub read_payload :
      (key tok : Bytes) (direct : List Bytes) (ws : Bytes) (onion : Option Bytes)
      → length key ≡ key_size
      → length tok ≡ 16
      → AreWritten net direct ws
      → HasOnionSize net onion
      → is_empty direct && is_none onion ≡ false
      → parse_payload net (payload_of key tok (ws ++ onion_bytes net onion))
        ≡ done (link_of net key tok direct onion)
  read_payload key tok direct ws onion k t w s some_address =
      parse_payload-payload_of key tok (ws ++ onion_bytes net onion) k t net
      ∙ ap (finish net key tok) (read_rest net direct ws onion nothing_read w s)
      ∙ finish-all_read net key tok direct onion some_address

  pub append_onion-done :
      (payload out : Bytes) (onion : Option Bytes)
      → append_onion net payload onion ≡ done out
      → (out ≡ payload ++ onion_bytes net onion) × HasOnionSize net onion
  unfolding append_onion
  append_onion-done payload out none h =
      (sym (done_inj payload out h) ∙ sym (append-nil payload), tt)
  append_onion-done payload out (some onion) h = elim (Bool-cases (length onion == key_size)) [
    | inl y ↦
        (sym (done_inj (payload ++ type_onion ∷ key_size ∷ onion) out (ground arith)), ground arith)
    | inr n ↦ ground arith
  ]
