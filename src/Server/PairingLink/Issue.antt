-- ===== src/Server/PairingLink/Issue.antt =====
-- internal/server/pairing_link.go: which addresses a link names, and the address a link of this
-- machine or of an invite is given.
use nox_app.Base.{
  Bool, true, false, not, ◌&&◌, ◌||◌, Option, none, some, List, [], ◌∷◌, ◌++◌, ◌==◌, if◌then◌else◌,
  is_none,
}
use nox_app.Server.PairingLink.{Bytes, NetLib, Outcome, done, refused, is_empty, build_pairing_link}

-- Equality of two Go strings.
unfoldable pub same_bytes : Bytes → Bytes → Bool
same_bytes [] [] = true
same_bytes [] (b ∷ bs) = false
same_bytes (x ∷ xs) [] = false
same_bytes (x ∷ xs) (y ∷ ys) = let rest = same_bytes xs ys in x == y && rest

-- configuredAddresses: what buildLink reads of it.
pub record ConfiguredAddresses : Type 0 where
  pub public_address : Bytes
  pub onion_key : Option Bytes

pub record LinkCarries : Type 0 where
  pub public_address : Bool
  pub onion : Bool

unfoldable pub link_addresses : Bytes → ConfiguredAddresses → List Bytes
unfolding same_bytes
link_addresses direct conf =
    (if is_empty conf.public_address then [] else conf.public_address ∷ [])
    ++ (if not (is_empty direct) && not (same_bytes direct conf.public_address)
        then direct ∷ []
        else [])

-- 127.0.0.1, 0.0.0.0 and ::
abbrev pub loopback4 : Bytes
loopback4 = 49 ∷ 50 ∷ 55 ∷ 46 ∷ 48 ∷ 46 ∷ 48 ∷ 46 ∷ 49 ∷ []

abbrev pub any4 : Bytes
any4 = 48 ∷ 46 ∷ 48 ∷ 46 ∷ 48 ∷ 46 ∷ 48 ∷ []

abbrev pub any6 : Bytes
any6 = 58 ∷ 58 ∷ []

unfoldable pub is_wildcard : Bytes → Bool
unfolding same_bytes
is_wildcard host = is_empty host || same_bytes host any4 || same_bytes host any6

module _ (net : NetLib) where
  unfoldable pub build_link :
      Bytes → Bytes → Bytes → ConfiguredAddresses → Outcome (Bytes × LinkCarries)
  unfolding link_addresses
  build_link server_key token direct conf =
      elim (build_pairing_link net server_key token (link_addresses direct conf) conf.onion_key) [
        | refused e ↦ refused e
        | done link ↦ done (
          link,
          record {
            public_address = not (is_empty conf.public_address);
            onion = not (is_none conf.onion_key);
          },
        )
      ]

  unfoldable pub listen_address : Bytes → Bytes
  unfolding is_wildcard
  listen_address addr = elim (net.split_host_port addr) [
    | none ↦ addr
    | some (host, port) ↦ net.join_host_port (if is_wildcard host then loopback4 else host) port
  ]

  -- The host and port that a request reached this server at; without a port, `port` is its own.
  abbrev pub reached_at : Bytes → Bytes → Bytes × Bytes
  reached_at request_host port = elim (net.split_host_port request_host) [
    | none ↦ (request_host, port)
    | some r ↦ r
  ]

  unfoldable pub invite_address : Bytes → Bytes → Bytes
  unfolding is_wildcard listen_address
  invite_address cfg_addr request_host = elim (net.split_host_port cfg_addr) [
    | none ↦ listen_address cfg_addr
    | some (host, port) ↦
        let reached = reached_at request_host port in
        if not (is_wildcard host) || is_empty request_host
        then listen_address cfg_addr
        else if is_empty reached.0 || is_empty reached.1
        then listen_address cfg_addr
        else net.join_host_port reached.0 reached.1
  ]
