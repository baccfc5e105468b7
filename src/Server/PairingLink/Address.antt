-- ===== src/Server/PairingLink/Address.antt =====
-- internal/server/pairing_link.go: one address written by appendDirectAddress and read back.
use nox_app.Base.{
  ℕ, ◌+◌, ◌%◌, ◌<◌, ◌≡◌, refl, subst, inl, inr, true, none, some, ◌++◌, length, arith, All,
  Option-cases, Bool-cases, ◌⊎◌,
}
use nox_app.Server.PairingLink.{
  Bytes, NetLib, Outcome, done, refused, type_ip4, type_ip6, type_name, put_uint16, host_value,
  fits_name,
}
use nox_app.Server.PairingLink.Parse.{
  Reading, direct_read, read_address, host_of, parse_direct_address,
}
use nox_app.Server.PairingLink.Laws.{
  IsByte, NetLaws, length-value, host-value, port-value, take-append,
}

pub Outcome-cases {ℓ} :
    {A : Type ℓ} (o : Outcome A) → (((a : A) × (o ≡ done a)) ⊎ ((e : _) × (o ≡ refused e)))
Outcome-cases (done a) = inl (a, refl)
Outcome-cases (refused e) = inr (e, refl)

module _ (net : NetLib) where
  -- The host as a link spells it: an IP address in package net's own form, a name as it is.
  abbrev pub spelled_host : Bytes → Bytes
  spelled_host host = elim (net.parse_ip host) [
    | none ↦ host
    | some ip ↦ elim (net.to4 ip) [ none ↦ net.ip_string ip | some v ↦ net.ip_string v ]
  ]

  abbrev pub port_number : Bytes → ℕ
  port_number text = elim (net.parse_uint16 text) [ none ↦ 0 | some n ↦ n ]

  -- host:port as a link spells it.
  abbrev pub spelled : Bytes → Bytes
  spelled addr = elim (net.split_host_port addr) [
    | none ↦ addr
    | some (host, port) ↦ net.join_host_port (spelled_host host) (net.itoa (port_number port))
  ]

-- The value that a host has in a link, of a type that is read back as the host's spelling.
pub record IsValueOf (net : NetLib) (host : Bytes) (kind size : ℕ) (value : Bytes) : Type 0 where
  pub fits : length value + 2 ≡ size
  pub small : size < 256
  pub bytes : All IsByte value
  pub direct : (kind ≡ type_ip4) ⊎ ((kind ≡ type_ip6) ⊎ (kind ≡ type_name))
  pub reads :
      (port : ℕ) → host_of net kind (value ++ put_uint16 port) ≡ done (spelled_host net host)

module _ (net : NetLib) (laws : NetLaws net) (host : Bytes) (b : All IsByte host) where
  ip4-IsValueOf :
      (ip v : Bytes)
      → net.parse_ip host ≡ some ip
      → net.to4 ip ≡ some v
      → IsValueOf net host type_ip4 (4 + 2) v
  unfolding host_of
  ip4-IsValueOf ip v h k = record {
    fits = omega (arith, laws.ip4_size ip v k);
    small = omega arith;
    bytes = laws.ip4_bytes ip v (laws.ip_bytes host ip h) k;
    direct = inl refl;
    reads = λ port.
        ground (arith, laws.ip4_size ip v k, length-value v port, take-append v (put_uint16 port));
  }

  ip6-IsValueOf :
      (ip : Bytes)
      → net.parse_ip host ≡ some ip
      → net.to4 ip ≡ none
      → IsValueOf net host type_ip6 (16 + 2) ip
  unfolding host_of
  ip6-IsValueOf ip h k = record {
    fits = omega (arith, laws.ip_size host ip h);
    small = omega arith;
    bytes = laws.ip_bytes host ip h;
    direct = inr (inl refl);
    reads = λ port.
        ground
          (arith, laws.ip_size host ip h, length-value ip port, take-append ip (put_uint16 port));
  }

  name-IsValueOf :
      net.parse_ip host ≡ none
      → fits_name net host ≡ true
      → IsValueOf net host type_name ((length host + 2) % 256) host
  unfolding host_of
  name-IsValueOf h k = record {
    fits = ground arith;
    small = omega arith;
    bytes = b;
    direct = inr (inr refl);
    reads = λ port. ground (arith, length-value host port, host-value host port);
  }

pub done_inj {ℓ} : {A : Type ℓ} (x y : A) → done x ≡ done y → x ≡ y
done_inj x y e = ground arith

module _ (net : NetLib) (laws : NetLaws net) where
  value_of :
      (host : Bytes) (r r' : ℕ × ℕ × Bytes)
      → IsValueOf net host r.0 r.1 r.2
      → done r ≡ done r'
      → IsValueOf net host r'.0 r'.1 r'.2
  value_of host r r' v e = subst (λ z. IsValueOf net host z.0 z.1 z.2) (done_inj r r' e) v

  pub host_value-IsValueOf :
      (host : Bytes) (kind size : ℕ) (value : Bytes)
      → All IsByte host
      → host_value net host ≡ done (kind, size, value)
      → IsValueOf net host kind size value
  unfolding host_value
  host_value-IsValueOf host kind size value b h = elim (Option-cases (net.parse_ip host)) [
    | inl n ↦ elim (Bool-cases (fits_name net host)) [
      | inl y ↦
          value_of host (type_name, (length host + 2) % 256, host) (kind, size, value)
            (name-IsValueOf net laws host b n y) (ground arith)
      | inr ko ↦ ground arith
    ]
    | inr (ip, p) ↦ elim (Option-cases (net.to4 ip)) [
      | inl n ↦
          value_of host (type_ip6, 16 + 2, ip) (kind, size, value)
            (ip6-IsValueOf net laws host b ip p n) (ground arith)
      | inr (v, k) ↦
          value_of host (type_ip4, 4 + 2, v) (kind, size, value)
            (ip4-IsValueOf net laws host b ip v p k) (ground arith)
    ]
  ]

  -- A value and a port, read as an address.
  pub read-IsValueOf :
      (host : Bytes) (kind size : ℕ) (value : Bytes) (port : ℕ) (r : Reading)
      → IsValueOf net host kind size value
      → 0 < port
      → port < 65536
      → read_address net kind (value ++ put_uint16 port) r
        ≡ done (direct_read (net.join_host_port (spelled_host net host) (net.itoa port)) r)
  unfolding read_address parse_direct_address
  read-IsValueOf host kind size value port r v pos small =
      ground (arith, v.direct, v.reads port, port-value value port small)
