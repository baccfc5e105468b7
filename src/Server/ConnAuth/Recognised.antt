-- ===== src/Server/ConnAuth/Recognised.antt =====
-- internal/connauth/connauth.go: whom a device hands its signature to.
use nox_app.Base.{ℕ, ◌≡◌, refl, inl, inr, true, none, some, [], ◌∷◌, arith, Option-cases}
use nox_app.Server.PairingLink.{Bytes}
use nox_app.Server.ConnAuth.{AuthLib, holds_it, go_on, check_signature}
use nox_app.Base.{length}
use nox_app.Server.PairingLink.Issue.{same_bytes}
use nox_app.Base.{◌<◌}
use nox_app.Server.ConnAuth.Device.{
  Reply, not_sent, not_read, replied, post, read_answer, recognise, after_answer, initiate,
}
use nox_app.Server.ConnAuth.Proved.{Step-cases}

-- A server that the device has recognised: it answered /auth with 200, and showed there the key the
-- link named and a signature of that key over the challenge the device drew for this connection.
pub record IsRecognised (lib : AuthLib) (device_key : Bytes) (draw : ℕ) (server : Bytes)
    (reply : Reply) : Type 0 where
  pub ours : Bytes
  pub own_key : Bytes
  pub body : Bytes
  pub public : Bytes
  pub theirs : Bytes
  pub sig : Bytes
  pub drawn : lib.get_challenge device_key draw ≡ some (ours, own_key)
  pub answer : reply ≡ replied 200 (some body)
  pub shown : read_answer lib body ≡ some (public, theirs, sig)
  pub is_named : public ≡ server
  pub holds_sig : lib.check_signature public ours sig ≡ holds_it

same_bytes-eq : (xs ys : Bytes) → same_bytes xs ys ≡ true → xs ≡ ys
unfolding same_bytes
same_bytes-eq [] [] h = refl
same_bytes-eq [] (y ∷ ys) h = ground arith
same_bytes-eq (x ∷ xs) [] h = ground arith
same_bytes-eq (x ∷ xs) (y ∷ ys) h = ground (arith, same_bytes-eq xs ys)

post-replied : (r : Reply) (body : Bytes) → post r ≡ go_on body → r ≡ replied 200 (some body)
unfolding post
post-replied not_sent body h = ground arith
post-replied not_read body h = ground arith
post-replied (replied status none) body h = ground arith
post-replied (replied status (some b)) body h = ground arith

module _ (lib : AuthLib) where
  recognise-holds :
      (server ours public theirs sig theirs' : Bytes)
      → recognise lib server ours (public, theirs, sig) ≡ go_on theirs'
      → (public ≡ server) × (lib.check_signature public ours sig ≡ holds_it)
  unfolding recognise check_signature
  recognise-holds server ours public theirs sig theirs' h =
      (ground (arith, same_bytes-eq public server), ground arith)

  -- A device sends a second request only to a server it has recognised: one that answered its first
  -- with 200, showed the key that the pairing link named, and signed with it the challenge that the
  -- device drew for this very connection.
  pub initiate-IsRecognised :
      (device_key : Bytes) (draw : ℕ) (server : Bytes) (reply1 reply2 : Reply)
      → 1 < length (initiate lib device_key draw server reply1 reply2).sent
      → IsRecognised lib device_key draw server reply1
  unfolding initiate after_answer
  initiate-IsRecognised device_key draw server reply1 reply2 h =
      elim (Option-cases (lib.get_challenge device_key draw)) [
        | inl n ↦ ground arith
        | inr ((ours, own_key), d) ↦ elim (Step-cases (post reply1)) [
          | inr (more, e, r) ↦ ground arith
          | inl (body, r) ↦ elim (Option-cases (read_answer lib body)) [
            | inl n ↦ ground arith
            | inr ((public, theirs, sig), s) ↦
                elim (Step-cases (recognise lib server ours (public, theirs, sig))) [
                  | inr (more, e, q) ↦ ground arith
                  | inl (theirs', q) ↦
                      let (is_named, holds_sig) =
                        recognise-holds server ours public theirs sig theirs' q in
                      record {
                        ours = ours;
                        own_key = own_key;
                        body = body;
                        public = public;
                        theirs = theirs;
                        sig = sig;
                        drawn = d;
                        answer = post-replied reply1 body r;
                        shown = s;
                        is_named = is_named;
                        holds_sig = holds_sig;
                      }
                ]
          ]
        ]
      ]
