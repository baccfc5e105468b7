-- ===== src/Server/PairingLink/Written.antt =====
-- internal/server/pairing_link.go: the addresses that a link holds, written one after another.
use nox_app.Base.{
  append-nil, append_assoc, ℕ, zero, suc, ◌<◌, ◌≡◌, ap, sym, ◌∙◌, inl, inr, some, List, [], ◌∷◌,
  ◌++◌, length, arith, All, Option-cases,
}
use nox_app.Sql.Laws.{All-append}
use nox_app.Server.PairingLink.{
  Bytes, NetLib, done, put_uint16, host_value, usable_port, append_direct_address,
}
use nox_app.Server.PairingLink.Parse.{Reading, direct_read, read_address}
use nox_app.Server.PairingLink.Laws.{IsByte, NetLaws, length-value, put_uint16_bytes}
use nox_app.Server.PairingLink.{append_all}
use nox_app.Server.PairingLink.Address.{
  spelled, IsValueOf, host_value-IsValueOf, read-IsValueOf, Outcome-cases, done_inj,
}

-- The bytes of an address as a link holds it, and what they are read as.
pub record IsWritten (net : NetLib) (addr written : Bytes) : Type 0 where
  pub kind : ℕ
  pub value : Bytes
  pub layout : written ≡ kind ∷ length value ∷ value
  pub bytes : All IsByte written
  pub reads :
      (r : Reading) → read_address net kind value r ≡ done (direct_read (spelled net addr) r)

module _ (net : NetLib) (laws : NetLaws net) where
  IsWritten-value :
      (addr host port_text : Bytes) (kind size : ℕ) (value : Bytes) (port : ℕ)
      → net.split_host_port addr ≡ some (host, port_text)
      → net.parse_uint16 port_text ≡ some port
      → 0 < port
      → IsValueOf net host kind size value
      → IsWritten net addr (kind ∷ size ∷ (value ++ put_uint16 port))
  IsWritten-value addr host port_text kind size value port s p pos v = record {
    kind = kind;
    value = value ++ put_uint16 port;
    layout =
        ap (λ n. kind ∷ n ∷ (value ++ put_uint16 port)) (sym (length-value value port ∙ v.fits));
    bytes = (
      ground (arith, v.direct),
      (v.small, All-append IsByte value (put_uint16 port) v.bytes (put_uint16_bytes port)),
    );
    reads = λ r. ground (
      arith,
      read-IsValueOf net laws host kind size value port r v pos (laws.port_fits port_text port p),
    );
  }

  append_direct_address-IsWritten :
      (payload addr out : Bytes)
      → All IsByte addr
      → append_direct_address net payload addr ≡ done out
      → (w : Bytes) × (out ≡ payload ++ w) × IsWritten net addr w
  unfolding append_direct_address usable_port
  append_direct_address-IsWritten payload addr out b h =
      elim (Option-cases (net.split_host_port addr)) [
        | inl n ↦ ground arith
        | inr ((host, port_text), s) ↦ elim (Option-cases (net.parse_uint16 port_text)) [
          | inl n ↦ ground arith
          | inr (zero, p) ↦ ground arith
          | inr (suc n, p) ↦ elim (Outcome-cases (host_value net host)) [
            | inr (e, v) ↦ ground arith
            | inl ((kind, size, value), v) ↦ (
              kind ∷ size ∷ (value ++ put_uint16 (suc n)),
              sym (
                  done_inj (payload ++ (kind ∷ size ∷ (value ++ put_uint16 (suc n)))) out
                    (ground arith)),
              IsWritten-value addr host port_text kind size value (suc n) s p (omega arith) (
                  host_value-IsValueOf net laws host kind size value
                    (laws.split_bytes addr host port_text b s) v),
            )
          ]
        ]
      ]

-- Addresses as a link holds them, one after another.
pub data AreWritten (net : NetLib) : List Bytes → Bytes → Type 0 where
  none_written : AreWritten net [] []
  one_written :
      (addr : Bytes) (addrs : List Bytes) (w ws : Bytes)
      → IsWritten net addr w
      → AreWritten net addrs ws
      → AreWritten net (addr ∷ addrs) (w ++ ws)

module _ (net : NetLib) (laws : NetLaws net) where
  pub append_all-AreWritten :
      (payload : Bytes) (direct : List Bytes) (out : Bytes)
      → All (All IsByte) direct
      → append_all net payload direct ≡ done out
      → (ws : Bytes) × (out ≡ payload ++ ws) × AreWritten net direct ws
  unfolding append_all
  append_all-AreWritten payload [] out b h =
      ([], sym (done_inj payload out h) ∙ sym (append-nil payload), none_written)
  append_all-AreWritten payload (addr ∷ addrs) out b h =
      elim (Outcome-cases (append_direct_address net payload addr)) [
        | inr (e, r) ↦ ground arith
        | inl (out₁, r) ↦
            let (w, split, iw) = append_direct_address-IsWritten net laws payload addr out₁ b.0 r in
            let (ws, split₁, iws) = append_all-AreWritten out₁ addrs out b.1 (ground arith) in
            (
              w ++ ws,
              split₁ ∙ ap (λ z. z ++ ws) split ∙ append_assoc payload w ws,
              one_written addr addrs w ws iw iws,
            )
      ]

  pub AreWritten-bytes :
      {direct : List Bytes} {ws : Bytes} → AreWritten net direct ws → All IsByte ws
  AreWritten-bytes none_written = tt
  AreWritten-bytes (one_written addr addrs w ws iw iws) =
      All-append IsByte w ws iw.bytes (AreWritten-bytes iws)
