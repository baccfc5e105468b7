-- ===== src/Server/PairingLink/Promises.antt =====
-- internal/server/pairing_link.go: what BuildPairingLink and ParsePairingLink promise.
use nox_app.Base.{
  append_assoc, ℕ, zero, suc, ◌+◌, ◌≤◌, ◌<◌, ◌≡◌, refl, ap, sym, ◌∙◌, subst, inl, inr, Bool, true,
  false, ◌&&◌, Option, none, some, List, [], ◌∷◌, ◌++◌, length, take, drop, arith, All,
  Option-cases,
}
use nox_app.Sql.Laws.{All-append}
use nox_app.Server.PairingLink.{Bytes, NetLib, Outcome, done, refused, unusable}
use nox_app.Server.PairingLink.Parse.{Reading, read_address, host_of, parse_direct_address}
use nox_app.Server.PairingLink.Laws.{IsByte, NetLaws}
use nox_app.Server.PairingLink.{append_all, append_onion}
use nox_app.Server.PairingLink.Address.{Outcome-cases, done_inj}
use nox_app.Base.{is_none}
use nox_app.Server.PairingLink.{
  malformed, newer_version, unfinished, key_size, link_header_size, pairing_link_version,
  pairing_link_prefix, cut_prefix, is_empty, build_pairing_link,
}
use nox_app.Server.PairingLink.Parse.{
  nothing_read, read_addresses, finish, parse_payload, parse_pairing_link,
}
use nox_app.Server.PairingLink.Written.{append_all-AreWritten, AreWritten-bytes}
use nox_app.Server.PairingLink.Loop.{onion_bytes}
use nox_app.Server.PairingLink.RoundTrip.{
  payload_of, link_of, read_text, read_payload, append_onion-done,
}

-- The onion service's key, if any, is bytes.
abbrev pub AreBytes : Option Bytes → Type 0
AreBytes none = Unit
AreBytes (some onion) = All IsByte onion

AreBytes-onion :
    (net : NetLib) (onion : Option Bytes) → AreBytes onion → All IsByte (onion_bytes net onion)
AreBytes-onion net none b = tt
AreBytes-onion net (some onion) b = (omega arith, (omega arith, b))

-- The parts of a link that is built.
record IsBuilt (net : NetLib) (key token : Bytes) (direct : List Bytes) (onion : Option Bytes)
    (link : Bytes) : Type 0 where
  tok : Bytes
  middle : Bytes
  all : Bytes
  some_address : is_empty direct && is_none onion ≡ false
  key_length : length key ≡ key_size
  tok_decoded : net.decode64 token ≡ some tok
  tok_length : length tok ≡ 16
  directs : append_all net (pairing_link_version ∷ (key ++ tok)) direct ≡ done middle
  service : append_onion net middle onion ≡ done all
  text : link ≡ pairing_link_prefix ++ net.encode64 all

module _ (net : NetLib) (key token : Bytes) (direct : List Bytes) (onion : Option Bytes)
    (link : Bytes) where
  build-IsBuilt :
      build_pairing_link net key token direct onion ≡ done link
      → IsBuilt net key token direct onion link
  unfolding build_pairing_link
  build-IsBuilt h = elim (Option-cases (net.decode64 token)) [
    | inl n ↦ ground arith
    | inr (tok, d) ↦
        elim (Outcome-cases (append_all net (pairing_link_version ∷ (key ++ tok)) direct)) [
          | inr (e, r) ↦ ground arith
          | inl (middle, r) ↦ elim (Outcome-cases (append_onion net middle onion)) [
            | inr (e, q) ↦ ground arith
            | inl (all, q) ↦ record {
              tok = tok;
              middle = middle;
              all = all;
              some_address = ground arith;
              key_length = ground arith;
              tok_decoded = d;
              tok_length = ground arith;
              directs = r;
              service = q;
              text = sym (done_inj (pairing_link_prefix ++ net.encode64 all) link (ground arith));
            }
          ]
        ]
  ]

-- A link that is built is read back as its parts: the server's key, the token's bytes in base64url
-- again, the direct addresses in their order as the link spells them (an IP address as package net
-- prints it, a name as it is, the port in decimal), and the onion service's key. It holds where the
-- key, the addresses and the onion key are bytes and the standard library keeps to `NetLaws`.
pub parse-build :
    (net : NetLib) (laws : NetLaws net) (key token : Bytes) (direct : List Bytes)
    (onion : Option Bytes) (link : Bytes)
    → All IsByte key
    → All (All IsByte) direct
    → AreBytes onion
    → build_pairing_link net key token direct onion ≡ done link
    → (tok : Bytes) × (net.decode64 token ≡ some tok)
      × (parse_pairing_link net link ≡ done (link_of net key tok direct onion))
parse-build net laws key token direct onion link bk bd bo h =
    let b = build-IsBuilt net key token direct onion link h in
    let head = pairing_link_version ∷ (key ++ b.tok) in
    let (ws, split, w) = append_all-AreWritten net laws head direct b.middle bd b.directs in
    let (end, size) = append_onion-done net laws b.middle b.all onion b.service in
    let layout : b.all ≡ payload_of key b.tok (ws ++ onion_bytes net onion) =
      end
      ∙ ap (λ z. z ++ onion_bytes net onion) split
      ∙ append_assoc head ws (onion_bytes net onion) in
    let bytes : All IsByte b.all = subst (All IsByte) (sym layout) (
      All-append IsByte head (ws ++ onion_bytes net onion)
        (omega arith, All-append IsByte key b.tok bk (laws.decode_bytes token b.tok b.tok_decoded))
        (All-append IsByte ws (onion_bytes net onion) (AreWritten-bytes net laws w)
          (AreBytes-onion net onion bo))) in
    (
      b.tok,
      b.tok_decoded,
      ap (parse_pairing_link net) b.text
          ∙ read_text net laws b.all bytes
          ∙ ap (parse_payload net) layout
          ∙ read_payload net laws key b.tok direct ws onion b.key_length b.tok_length w size
              b.some_address,
    )

-- A link, or one of the two refusals of the parse rules.
abbrev pub is_answer {ℓ} : {A : Type ℓ} → Outcome A → Bool
is_answer (done _) = true
is_answer (refused malformed) = true
is_answer (refused newer_version) = true
is_answer (refused unusable) = false
is_answer (refused unfinished) = false

length-drop : (n : ℕ) (bs : Bytes) → length (drop n bs) ≤ length bs
length-drop zero bs = omega arith
length-drop (suc n) [] = omega arith
length-drop (suc n) (b ∷ bs) = omega (arith, length-drop n bs)

module _ (net : NetLib) where
  host_of_ends : (kind : ℕ) (value : Bytes) → is_answer (host_of net kind value) ≡ true
  unfolding host_of
  host_of_ends kind value = ground arith

  parse_direct_address_ends :
      (kind : ℕ) (value : Bytes) → is_answer (parse_direct_address net kind value) ≡ true
  unfolding parse_direct_address
  parse_direct_address_ends kind value = ground (arith, host_of_ends kind value)

  read_address_ends :
      (kind : ℕ) (value : Bytes) (r : Reading) → is_answer (read_address net kind value r) ≡ true
  unfolding read_address
  read_address_ends kind value r = ground (arith, parse_direct_address_ends kind value)

  read_addresses_ends :
      (fuel : ℕ) (payload : Bytes) (r : Reading)
      → length payload < fuel
      → is_answer (read_addresses net fuel payload r) ≡ true
  unfolding read_addresses
  read_addresses_ends zero payload r h = ground arith
  read_addresses_ends (suc fuel) [] r h = refl
  read_addresses_ends (suc fuel) (kind ∷ []) r h = refl
  read_addresses_ends (suc fuel) (kind ∷ size ∷ rest) r h =
      elim (Outcome-cases (read_address net kind (take size rest) r)) [
        | inl (r', e) ↦
            ground (arith, read_addresses_ends fuel (drop size rest) r', length-drop size rest)
        | inr (x, e) ↦ ground (arith, read_address_ends kind (take size rest) r)
      ]

  finish_ends :
      (key tok : Bytes) (o : Outcome Reading)
      → is_answer o ≡ true
      → is_answer (finish net key tok o) ≡ true
  unfolding finish
  finish_ends key tok (refused e) h = ground arith
  finish_ends key tok (done r) h = ground arith

  parse_payload_ends : (payload : Bytes) → is_answer (parse_payload net payload) ≡ true
  unfolding parse_payload
  parse_payload_ends payload = ground (
    arith,
    finish_ends (take key_size (drop 1 payload)) (take 16 (drop (1 + key_size) payload))
        (read_addresses net (suc (length (drop link_header_size payload)))
          (drop link_header_size payload) nothing_read)
        (read_addresses_ends (suc (length (drop link_header_size payload)))
          (drop link_header_size payload) nothing_read (omega arith)),
  )

-- ParsePairingLink comes to an end on every text, with a link or with one of its two refusals: the
-- fuel of its loop, one more than the bytes of the addresses, never runs out.
pub parse_pairing_link_ends :
    (net : NetLib) (link : Bytes) → is_answer (parse_pairing_link net link) ≡ true
unfolding parse_pairing_link
parse_pairing_link_ends net link =
    elim (Option-cases (cut_prefix (net.trim_space link) pairing_link_prefix)) [
      | inl n ↦ ground arith
      | inr (text, c) ↦ elim (Option-cases (net.decode64 text)) [
        | inl n ↦ ground arith
        | inr (payload, d) ↦ ground (arith, parse_payload_ends net payload)
      ]
    ]
