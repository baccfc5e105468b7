-- ===== src/Server/PairingLink.antt =====
-- internal/server/pairing_link.go: the pairing link, version 3, written and read. A Go string is the
-- list of its bytes; base64, package net, strconv, utf8.Valid and strings.TrimSpace are a parameter.
pub mod Parse
pub mod Issue
pub mod Laws
pub mod Address
pub mod Written
pub mod Loop
pub mod RoundTrip
pub mod Promises
use nox_app.Base.{
  ℕ, zero, suc, ◌+◌, ◌*◌, ◌/◌, ◌%◌, Bool, true, false, not, ◌&&◌, ◌||◌, Option, none, some, List,
  [], ◌∷◌, ◌++◌, length, take, drop, ltb, leb, ◌==◌, if◌then◌else◌, is_none,
}

abbrev pub Bytes : Type 0
Bytes = List ℕ

pub record NetLib : Type 0 where
  pub trim_space : Bytes → Bytes
  pub encode64 : Bytes → Bytes
  pub decode64 : Bytes → Option Bytes
  pub valid_utf8 : Bytes → Bool
  pub split_host_port : Bytes → Option (Bytes × Bytes)
  pub join_host_port : Bytes → Bytes → Bytes
  -- ParseUint of base 10 and 16 bits, and Itoa.
  pub parse_uint16 : Bytes → Option ℕ
  pub itoa : ℕ → Bytes
  -- ParseIP, which gives the form of 16 bytes, To4 and String.
  pub parse_ip : Bytes → Option Bytes
  pub to4 : Bytes → Option Bytes
  pub ip_string : Bytes → Bytes

pub data LinkError : Type 0 where
  -- ErrLinkMalformed and ErrLinkNewerVersion.
  malformed : LinkError
  newer_version : LinkError
  -- What BuildPairingLink refuses to render.
  unusable : LinkError
  -- Fuel that ran out.
  unfinished : LinkError

pub data Outcome {ℓ} (A : Type ℓ) : Type ℓ where
  done : A → Outcome A
  refused : LinkError → Outcome A

abbrev pub pairing_link_version : ℕ
pairing_link_version = 3

-- nox://pair/
abbrev pub pairing_link_prefix : Bytes
pairing_link_prefix = 110 ∷ 111 ∷ 120 ∷ 58 ∷ 47 ∷ 47 ∷ 112 ∷ 97 ∷ 105 ∷ 114 ∷ 47 ∷ []

abbrev pub type_ip4 : ℕ
type_ip4 = 1

abbrev pub type_ip6 : ℕ
type_ip6 = 2

abbrev pub type_name : ℕ
type_name = 3

abbrev pub type_onion : ℕ
type_onion = 4

abbrev pub key_size : ℕ
key_size = 32

abbrev pub link_header_size : ℕ
link_header_size = 1 + key_size + 16

abbrev pub max_link_name_bytes : ℕ
max_link_name_bytes = 253

pub record PairingLink : Type 0 where
  pub server_key : Bytes
  pub token : Bytes
  pub direct : List Bytes
  pub onion : Option Bytes

-- binary.BigEndian.
abbrev pub put_uint16 : ℕ → Bytes
put_uint16 n = n / 256 % 256 ∷ n % 256 ∷ []

abbrev pub uint16_of : Bytes → ℕ
uint16_of (a ∷ b ∷ _) = a * 256 + b
uint16_of _ = 0

-- strings.Contains of a colon, and strings.CutPrefix.
unfoldable pub has_colon : Bytes → Bool
has_colon [] = false
has_colon (b ∷ bs) = b == 58 || has_colon bs

unfoldable pub cut_prefix : Bytes → Bytes → Option Bytes
cut_prefix s [] = some s
cut_prefix [] (p ∷ ps) = none
cut_prefix (b ∷ bs) (p ∷ ps) = let rest = cut_prefix bs ps in if b == p then rest else none

abbrev pub is_empty {ℓ} : {A : Type ℓ} → List A → Bool
is_empty [] = true
is_empty (_ ∷ _) = false

module _ (net : NetLib) where
  -- Whether a host that is no IP address is a name that fits.
  abbrev pub fits_name : Bytes → Bool
  fits_name host = not (
      is_empty host
      || ltb max_link_name_bytes (length host)
      || not (net.valid_utf8 host)
      || has_colon host)

  abbrev pub name_or_refusal : Bytes → Outcome (ℕ × ℕ × Bytes)
  name_or_refusal host =
      if fits_name host then done (type_name, (length host + 2) % 256, host) else refused unusable

  -- The type, the length and the value, less its port, that a host has in a link.
  unfoldable pub host_value : Bytes → Outcome (ℕ × ℕ × Bytes)
  host_value host = elim (net.parse_ip host) [
    | none ↦ name_or_refusal host
    | some ip ↦ elim (net.to4 ip) [
      | some ip4 ↦ done (type_ip4, 4 + 2, ip4)
      | none ↦ done (type_ip6, 16 + 2, ip)
    ]
  ]

  unfoldable pub usable_port : Bytes → Outcome ℕ
  usable_port text = elim (net.parse_uint16 text) [
    | none ↦ refused unusable
    | some zero ↦ refused unusable
    | some (suc n) ↦ done (suc n)
  ]

  unfoldable pub append_direct_address : Bytes → Bytes → Outcome Bytes
  append_direct_address payload addr = elim (net.split_host_port addr) [
    | none ↦ refused unusable
    | some (host, port_text) ↦ elim (usable_port port_text) [
      | refused e ↦ refused e
      | done port ↦ elim (host_value host) [
        | refused e ↦ refused e
        | done (kind, size, value) ↦ done (payload ++ (kind ∷ size ∷ (value ++ put_uint16 port)))
      ]
    ]
  ]

  unfoldable pub append_all : Bytes → List Bytes → Outcome Bytes
  append_all payload [] = done payload
  append_all payload (addr ∷ addrs) = elim (append_direct_address payload addr) [
    | refused e ↦ refused e
    | done payload' ↦ append_all payload' addrs
  ]

  unfoldable pub append_onion : Bytes → Option Bytes → Outcome Bytes
  append_onion payload none = done payload
  append_onion payload (some onion) =
      if length onion == key_size
      then done (payload ++ type_onion ∷ key_size ∷ onion)
      else refused unusable

  abbrev pub token_bytes : Bytes → Outcome Bytes
  token_bytes token = elim (net.decode64 token) [
    | none ↦ refused unusable
    | some tok ↦ if length tok == 16 then done tok else refused unusable
  ]

  unfoldable pub build_pairing_link : Bytes → Bytes → List Bytes → Option Bytes → Outcome Bytes
  build_pairing_link server_key token direct onion =
      let written : Outcome Bytes = elim (token_bytes token) [
        | refused e ↦ refused e
        | done tok ↦ elim (append_all (pairing_link_version ∷ server_key ++ tok) direct) [
          | refused e ↦ refused e
          | done payload ↦ elim (append_onion payload onion) [
            | refused e ↦ refused e
            | done all ↦ done (pairing_link_prefix ++ net.encode64 all)
          ]
        ]
      ] in
      if not (length server_key == key_size) || (is_empty direct && is_none onion)
      then refused unusable
      else written
