-- ===== src/Server/PairingLink/Parse.antt =====
-- internal/server/pairing_link.go: ParsePairingLink and parseDirectAddress.
use nox_app.Base.{
  ℕ, zero, suc, ◌+◌, ◌-◌, not, ◌||◌, Option, none, some, List, [], ◌∷◌, ◌++◌, length, take, drop,
  ltb, ◌==◌, if◌then◌else◌, is_none,
}
use nox_app.Server.PairingLink.{
  Bytes, NetLib, Outcome, done, refused, malformed, newer_version, unfinished, PairingLink,
  type_ip4, type_ip6, type_name, type_onion, key_size, link_header_size, pairing_link_version,
  pairing_link_prefix, uint16_of, cut_prefix,
}

-- What the loop of ParsePairingLink carries: the link so far, and how many addresses it knew.
pub record Reading : Type 0 where
  pub direct : List Bytes
  pub onion : Option Bytes
  pub known : ℕ

abbrev pub nothing_read : Reading
nothing_read = record { direct = []; onion = none; known = 0 }

abbrev pub onion_read : Bytes → Reading → Reading
onion_read value r = record r {
  onion = if is_none r.onion then some value else r.onion;
  known = suc r.known;
}

abbrev pub direct_read : Bytes → Reading → Reading
direct_read addr r = record r { direct = r.direct ++ addr ∷ []; known = suc r.known }

module _ (net : NetLib) where
  -- The host of a value of the type, and the value's refusal.
  unfoldable pub host_of : ℕ → Bytes → Outcome Bytes
  host_of kind value =
      let host = take (length value - 2) value in
      let ip4 : Outcome Bytes =
        if length value == 4 + 2 then done (net.ip_string (take 4 value)) else refused malformed in
      let ip6 : Outcome Bytes =
        if length value == 16 + 2
        then done (net.ip_string (take 16 value))
        else refused malformed in
      let name : Outcome Bytes =
        if ltb (length value) (1 + 2) || not (net.valid_utf8 host)
        then refused malformed
        else done host in
      if kind == type_ip4 then ip4 else if kind == type_ip6 then ip6 else name

  unfoldable pub parse_direct_address : ℕ → Bytes → Outcome Bytes
  parse_direct_address kind value = elim (host_of kind value) [
    | refused e ↦ refused e
    | done host ↦
        let port = uint16_of (drop (length value - 2) value) in
        if port == 0 then refused malformed else done (net.join_host_port host (net.itoa port))
  ]

  -- The switch on an address's type.
  unfoldable pub read_address : ℕ → Bytes → Reading → Outcome Reading
  read_address kind value r =
      let address : Outcome Reading = elim (parse_direct_address kind value) [
        | refused e ↦ refused e
        | done addr ↦ done (direct_read addr r)
      ] in
      let service : Outcome Reading =
        if length value == key_size then done (onion_read value r) else refused malformed in
      if kind == type_ip4 || kind == type_ip6 || kind == type_name
      then address
      else if kind == type_onion
      then service
      else done r

  -- The loop over the addresses.
  unfoldable pub read_addresses : ℕ → Bytes → Reading → Outcome Reading
  read_addresses zero payload r = refused unfinished
  read_addresses (suc fuel) [] r = done r
  read_addresses (suc fuel) (kind ∷ []) r = refused malformed
  read_addresses (suc fuel) (kind ∷ size ∷ rest) r =
      let next : Outcome Reading = elim (read_address kind (take size rest) r) [
        | refused e ↦ refused e
        | done r' ↦ read_addresses fuel (drop size rest) r'
      ] in
      if ltb (length rest) size then refused malformed else next

  unfoldable pub finish : Bytes → Bytes → Outcome Reading → Outcome PairingLink
  finish key tok (refused e) = refused e
  finish key tok (done r) =
      if r.known == 0
      then refused malformed
      else done (record {
        server_key = key;
        token = net.encode64 tok;
        direct = r.direct;
        onion = r.onion;
      })

  abbrev pub version_of : Bytes → ℕ
  version_of [] = 0
  version_of (v ∷ _) = v

  unfoldable pub parse_payload : Bytes → Outcome PairingLink
  parse_payload payload =
      let version = version_of payload in
      let rest = drop link_header_size payload in
      let read =
        finish (take key_size (drop 1 payload)) (take 16 (drop (1 + key_size) payload))
          (read_addresses (suc (length rest)) rest nothing_read) in
      if ltb (length payload) link_header_size
      then refused malformed
      else if ltb pairing_link_version version
      then refused newer_version
      else if not (version == pairing_link_version)
      then refused malformed
      else read

  unfoldable pub parse_pairing_link : Bytes → Outcome PairingLink
  parse_pairing_link link = elim (cut_prefix (net.trim_space link) pairing_link_prefix) [
    | none ↦ refused malformed
    | some text ↦ elim (net.decode64 text) [
      | none ↦ refused malformed
      | some payload ↦ parse_payload payload
    ]
  ]
