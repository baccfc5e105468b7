-- ===== src/Server/PairingLink/Laws.antt =====
-- internal/server/pairing_link.go: what the link relies on of the standard library, and lemmas on
-- runs of bytes.
use nox_app.Base.{
  ℕ, ◌+◌, ◌-◌, ◌<◌, ◌≡◌, refl, ap, some, List, [], ◌∷◌, ◌++◌, length, length-append, take, drop,
  arith, All,
}
use nox_app.Server.PairingLink.{Bytes, NetLib, uint16_of, put_uint16}

abbrev pub IsByte : ℕ → Type 0
IsByte b = b < 256

-- ASCII, and no white space.
abbrev pub IsGraphic : ℕ → Type 0
IsGraphic b = (32 < b) × (b < 127)

pub record NetLaws (net : NetLib) : Type 0 where
  pub trim_graphic : (s : Bytes) → All IsGraphic s → net.trim_space s ≡ s
  pub encode_graphic : (b : Bytes) → All IsByte b → All IsGraphic (net.encode64 b)
  pub decode_encode : (b : Bytes) → All IsByte b → net.decode64 (net.encode64 b) ≡ some b
  pub decode_bytes : (s b : Bytes) → net.decode64 s ≡ some b → All IsByte b
  pub split_bytes :
      (s host port : Bytes)
      → All IsByte s
      → net.split_host_port s ≡ some (host, port)
      → All IsByte host
  pub port_fits : (s : Bytes) (n : ℕ) → net.parse_uint16 s ≡ some n → n < 65536
  pub ip_size : (host ip : Bytes) → net.parse_ip host ≡ some ip → length ip ≡ 16
  pub ip_bytes : (host ip : Bytes) → net.parse_ip host ≡ some ip → All IsByte ip
  pub ip4_size : (ip v : Bytes) → net.to4 ip ≡ some v → length v ≡ 4
  pub ip4_bytes : (ip v : Bytes) → All IsByte ip → net.to4 ip ≡ some v → All IsByte v

module _ {ℓ} {A : Type ℓ} where
  pub take-append : (xs ys : List A) → take (length xs) (xs ++ ys) ≡ xs
  take-append [] ys = refl
  take-append (x ∷ xs) ys = ap (λ zs. x ∷ zs) (take-append xs ys)

  pub drop-append : (xs ys : List A) → drop (length xs) (xs ++ ys) ≡ ys
  drop-append [] ys = refl
  drop-append (x ∷ xs) ys = drop-append xs ys

-- The value of an address: its host's bytes and its port's two.
module _ (host : Bytes) (port : ℕ) where
  pub length-value : length (host ++ put_uint16 port) ≡ length host + 2
  length-value = length-append host (put_uint16 port)

  pub host-value : take (length (host ++ put_uint16 port) - 2) (host ++ put_uint16 port) ≡ host
  host-value = ground (arith, length-value, take-append host (put_uint16 port))

  pub port-value :
      port < 65536
      → uint16_of (drop (length (host ++ put_uint16 port) - 2) (host ++ put_uint16 port)) ≡ port
  port-value h = ground (arith, length-value, drop-append host (put_uint16 port))

pub put_uint16_bytes : (n : ℕ) → All IsByte (put_uint16 n)
put_uint16_bytes n = (omega arith, (omega arith, tt))
