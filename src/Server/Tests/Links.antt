-- ===== src/Server/Tests/Links.antt =====
-- Tests of internal/server/pairing_link.go, over a small stand-in for the standard library: two
-- letters to a byte for base64, hosts that are all names, and ports of one digit.
use nox_app.Base.{
  some_inj, ℕ, zero, suc, ◌+◌, ◌-◌, ◌*◌, ◌/◌, ◌%◌, ◌<◌, ◌≡◌, refl, true, Option, none, some, [],
  ◌∷◌, ◌++◌, ◌==◌, if◌then◌else◌, arith, All, subst, inl, inr, Option-cases, Bool-cases,
}
use nox_app.Server.PairingLink.{
  Bytes, NetLib, Outcome, done, refused, build_pairing_link, pairing_link_prefix,
}
use nox_app.Server.PairingLink.Parse.{parse_pairing_link}
use nox_app.Server.PairingLink.Laws.{IsByte, IsGraphic, NetLaws}
use nox_app.Server.PairingLink.RoundTrip.{link_of}
use nox_app.Server.PairingLink.Promises.{is_answer, parse-build, parse_pairing_link_ends}

letters : Bytes → Bytes
letters [] = []
letters (b ∷ bs) = (97 + b / 16) ∷ (97 + b % 16) ∷ letters bs

abbrev with_byte : ℕ → Option Bytes → Option Bytes
with_byte b none = none
with_byte b (some bs) = some (b ∷ bs)

bytes_of : Bytes → Option Bytes
bytes_of [] = some []
bytes_of (a ∷ []) = none
bytes_of (a ∷ b ∷ more) = with_byte (((a - 97) * 16 + (b - 97)) % 256) (bytes_of more)

abbrev before_colon : ℕ → Option (Bytes × Bytes) → Option (Bytes × Bytes)
before_colon b none = none
before_colon b (some (host, port)) = some (b ∷ host, port)

split_colon : Bytes → Option (Bytes × Bytes)
split_colon [] = none
split_colon (b ∷ bs) =
    let later = before_colon b (split_colon bs) in if b == 58 then some ([], bs) else later

abbrev digit : Bytes → Option ℕ
digit [] = none
digit (d ∷ _) = some ((d - 48) % 65536)

abbrev small_net : NetLib
small_net = record {
  trim_space = λ s. s;
  encode64 = letters;
  decode64 = bytes_of;
  valid_utf8 = λ s. true;
  split_host_port = split_colon;
  join_host_port = λ host port. host ++ 58 ∷ port;
  parse_uint16 = digit;
  itoa = λ n. (48 + n) ∷ [];
  parse_ip = λ host. none;
  to4 = λ ip. none;
  ip_string = λ ip. ip;
}

letters-IsGraphic : (b : Bytes) → All IsByte b → All IsGraphic (letters b)
unfolding letters
letters-IsGraphic [] h = tt
letters-IsGraphic (x ∷ xs) h =
    ((ground arith, ground arith), ((ground arith, ground arith), letters-IsGraphic xs h.1))

bytes_of-letters : (b : Bytes) → All IsByte b → bytes_of (letters b) ≡ some b
unfolding letters bytes_of
bytes_of-letters [] h = refl
bytes_of-letters (x ∷ xs) h = ground (arith, bytes_of-letters xs h.1)

host_is :
    (h h' p p' : Bytes) → ◌≡◌ {A = Option (Bytes × Bytes)} (some (h, p)) (some (h', p')) → h ≡ h'
host_is h h' p p' e = ground arith

bytes_of_bytes : (s b : Bytes) → bytes_of s ≡ some b → All IsByte b
unfolding bytes_of
bytes_of_bytes [] b h = subst (All IsByte) (some_inj [] b h) tt
bytes_of_bytes (x ∷ []) b h = ground arith
bytes_of_bytes (x ∷ y ∷ more) b h = elim (Option-cases (bytes_of more)) [
  | inl n ↦ ground arith
  | inr (bs, e) ↦
      subst (All IsByte) (some_inj ((((x - 97) * 16 + (y - 97)) % 256) ∷ bs) b (ground arith))
        (omega arith, bytes_of_bytes more bs e)
]

split_colon_bytes :
    (s host port : Bytes) → All IsByte s → split_colon s ≡ some (host, port) → All IsByte host
unfolding split_colon
split_colon_bytes [] host port a h = ground arith
split_colon_bytes (x ∷ xs) host port a h = elim (Bool-cases (x == 58)) [
  | inl y ↦ subst (All IsByte) (host_is [] host xs port (ground arith)) tt
  | inr n ↦ elim (Option-cases (split_colon xs)) [
    | inl none_left ↦ ground arith
    | inr ((before, after), e) ↦
        subst (All IsByte) (host_is (x ∷ before) host after port (ground arith))
          (a.0, split_colon_bytes xs before after a.1 e)
  ]
]

digit_fits : (s : Bytes) (n : ℕ) → digit s ≡ some n → n < 65536
digit_fits [] n h = ground arith
digit_fits (d ∷ ds) n h = ground arith

small_net-NetLaws : NetLaws small_net
small_net-NetLaws = record {
  trim_graphic = λ s g. refl;
  encode_graphic = letters-IsGraphic;
  decode_encode = bytes_of-letters;
  decode_bytes = bytes_of_bytes;
  split_bytes = split_colon_bytes;
  port_fits = digit_fits;
  ip_size = λ host ip h. ground arith;
  ip_bytes = λ host ip h. ground arith;
  ip4_size = λ ip v h. ground arith;
  ip4_bytes = λ ip v b h. ground arith;
}

abbrev key_bytes : ℕ → Bytes
key_bytes zero = []
key_bytes (suc n) = 200 ∷ key_bytes n

-- "noxd:8"
abbrev home_address : Bytes
home_address = 110 ∷ 111 ∷ 120 ∷ 100 ∷ 58 ∷ 56 ∷ []

abbrev home_token : Bytes
home_token = letters (key_bytes 16)

abbrev text_of : Outcome Bytes → Bytes
text_of (done link) = link
text_of (refused e) = []

abbrev home_link : Bytes
home_link = text_of (
    build_pairing_link small_net (key_bytes 32) home_token (home_address ∷ [])
      (some (key_bytes 32)))

parse-build_example :
    (tok : Bytes) × (bytes_of home_token ≡ some tok)
    × (parse_pairing_link small_net home_link
        ≡ done (link_of small_net (key_bytes 32) tok (home_address ∷ []) (some (key_bytes 32))))
unfolding build_pairing_link letters bytes_of nox_app.Server.PairingLink.append_all
    nox_app.Server.PairingLink.append_direct_address split_colon
    nox_app.Server.PairingLink.usable_port nox_app.Server.PairingLink.host_value
    nox_app.Server.PairingLink.has_colon nox_app.Server.PairingLink.append_onion
parse-build_example =
    parse-build small_net small_net-NetLaws (key_bytes 32) home_token (home_address ∷ [])
      (some (key_bytes 32)) home_link (ground arith) (ground arith) (ground arith) refl

parse_pairing_link_ends_example :
    is_answer (parse_pairing_link small_net pairing_link_prefix) ≡ true
parse_pairing_link_ends_example = parse_pairing_link_ends small_net pairing_link_prefix
