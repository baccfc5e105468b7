-- ===== src/Server/ConnAuth/Bodies.antt =====
-- internal/connauth/connauth.go: the bodies of the check, written by one half and read by the other.
use nox_app.Base.{
  same_refl, ℕ, String, ◌≡◌, refl, true, false, none, some, [], ◌∷◌, if◌then◌else◌, arith, ◌⊎◌,
  ◌&&◌,
}
use nox_app.Server.PairingLink.{Bytes}
use nox_app.Server.ConnAuth.{
  AuthLib, holds_it, Arrival, arrived, go_on, read_step, read_request, read_auth, read_auth2,
  auth_path, auth2_path,
}
use nox_app.Base.{length, ◌==◌}
use nox_app.Server.ConnAuth.{key_size, challenge_size, signature_size, max_body, decode}
use nox_app.Server.PairingLink.Issue.{same_bytes}
use nox_app.Base.{◌≤◌, ◌+◌, ◌*◌, ◌/◌, All}
use nox_app.Server.PairingLink.Laws.{IsByte}
use nox_app.Server.ConnAuth.Device.{read_answer}

-- What the check relies on of base64, of package json and of RustSecureBox.
pub record AuthLaws (lib : AuthLib) : Type 0 where
  pub decode_encode : (b : Bytes) → All IsByte b → lib.decode64 (lib.encode64 b) ≡ some b
  pub encoded_length : (b : Bytes) → All IsByte b → length (lib.encode64 b) * 6 / 8 ≡ length b
  -- The texts of the bodies are base64url, which package json writes and reads as they are.
  pub read_auth_body :
      (pk c : Bytes)
      → All IsByte pk
      → All IsByte c
      → lib.get_auth (lib.put_auth (lib.encode64 pk) (lib.encode64 c))
        ≡ some (lib.encode64 pk, lib.encode64 c)
  pub read_answer_body :
      (pk c s : Bytes)
      → All IsByte pk
      → All IsByte c
      → All IsByte s
      → lib.get_answer (lib.put_answer (lib.encode64 pk) (lib.encode64 c) (lib.encode64 s))
        ≡ some (lib.encode64 pk, lib.encode64 c, lib.encode64 s)
  pub read_auth2_body :
      (s : Bytes)
      → All IsByte s
      → lib.get_auth2 (lib.put_auth2 (lib.encode64 s)) ≡ some (lib.encode64 s)
  -- The names and the punctuation of the bodies are a few dozen bytes.
  pub auth_length :
      (pk c : Bytes)
      → All IsByte pk
      → All IsByte c
      → length (lib.put_auth (lib.encode64 pk) (lib.encode64 c))
        ≤ length (lib.encode64 pk) + length (lib.encode64 c) + 64
  pub answer_length :
      (pk c s : Bytes)
      → All IsByte pk
      → All IsByte c
      → All IsByte s
      → length (lib.put_answer (lib.encode64 pk) (lib.encode64 c) (lib.encode64 s))
        ≤ length (lib.encode64 pk) + length (lib.encode64 c) + length (lib.encode64 s) + 64
  pub auth2_length :
      (s : Bytes)
      → All IsByte s
      → length (lib.put_auth2 (lib.encode64 s)) ≤ length (lib.encode64 s) + 64
  pub challenge_fits :
      (key : Bytes) (draw : ℕ) (c p : Bytes)
      → lib.get_challenge key draw ≡ some (c, p)
      → (length c ≡ challenge_size) × All IsByte c
  pub public_fits :
      (key : Bytes) (draw : ℕ) (c p : Bytes)
      → lib.get_challenge key draw ≡ some (c, p)
      → (length p ≡ key_size) × All IsByte p
  pub signature_fits :
      (key c s : Bytes)
      → lib.sign_challenge key c ≡ some s
      → (length s ≡ signature_size) × All IsByte s
  pub signature_holds :
      (key : Bytes) (draw : ℕ) (own p c s : Bytes)
      → lib.get_challenge key draw ≡ some (own, p)
      → lib.sign_challenge key c ≡ some s
      → lib.check_signature p c s ≡ holds_it

-- The request that post sends.
abbrev pub posted : String → Bytes → Arrival
posted path body = arrived (record {
  path = path;
  method = "POST";
  chunked = false;
  content_length = some (length body);
  body = some body;
})

pub read_step-posted :
    (path : String) (body : Bytes)
    → (path ≡ auth_path) ⊎ (path ≡ auth2_path)
    → length body ≤ max_body
    → read_step (posted path body) path ≡ go_on body
unfolding read_step read_request
read_step-posted path body p h = ground (arith, same_refl path)

-- What decode makes of bytes of the right number.
sized :
    (b : Bytes) (n : ℕ) (text : Bytes)
    → length text * 6 / 8 ≡ length b
    → length b ≡ n
    → (if length text * 6 / 8 == n && length b == n then some b else none) ≡ some b
sized b n text t h = ground arith

pub same_bytes_refl : (bs : Bytes) → same_bytes bs bs ≡ true
unfolding same_bytes
same_bytes_refl [] = refl
same_bytes_refl (b ∷ bs) = ground (arith, same_bytes_refl bs)

module _ (lib : AuthLib) (laws : AuthLaws lib) where
  decode_encoded :
      (b : Bytes) (n : ℕ) → (length b ≡ n) × All IsByte b → decode lib (lib.encode64 b) n ≡ some b
  unfolding decode
  decode_encoded b n h =
      rw (decode, laws.decode_encode b h.1)
        (sized b n (lib.encode64 b) (laws.encoded_length b h.1) h.0)

  pub read_auth_put :
      (pk c : Bytes)
      → (length pk ≡ key_size) × All IsByte pk
      → (length c ≡ challenge_size) × All IsByte c
      → read_auth lib (lib.put_auth (lib.encode64 pk) (lib.encode64 c)) ≡ some (pk, c)
  unfolding read_auth
  read_auth_put pk c p q =
      rw
        (
          read_auth,
          laws.read_auth_body pk c p.1 q.1,
          decode_encoded pk key_size p,
          decode_encoded c challenge_size q,
        )
        refl

  pub read_answer_put :
      (pk c s : Bytes)
      → (length pk ≡ key_size) × All IsByte pk
      → (length c ≡ challenge_size) × All IsByte c
      → (length s ≡ signature_size) × All IsByte s
      → read_answer lib (lib.put_answer (lib.encode64 pk) (lib.encode64 c) (lib.encode64 s))
        ≡ some (pk, c, s)
  unfolding read_answer
  read_answer_put pk c s p q r =
      rw
        (
          read_answer,
          laws.read_answer_body pk c s p.1 q.1 r.1,
          decode_encoded pk key_size p,
          decode_encoded c challenge_size q,
          decode_encoded s signature_size r,
        )
        refl

  pub read_auth2_put :
      (s : Bytes)
      → (length s ≡ signature_size) × All IsByte s
      → read_auth2 lib (lib.put_auth2 (lib.encode64 s)) ≡ some s
  unfolding read_auth2
  read_auth2_put s r =
      rw (read_auth2, laws.read_auth2_body s r.1, decode_encoded s signature_size r) refl

  -- Every body fits.
  pub auth_fits :
      (pk c : Bytes)
      → (length pk ≡ key_size) × All IsByte pk
      → (length c ≡ challenge_size) × All IsByte c
      → length (lib.put_auth (lib.encode64 pk) (lib.encode64 c)) ≤ max_body
  auth_fits pk c p q = omega (
    arith,
    laws.auth_length pk c p.1 q.1,
    p.0,
    q.0,
    laws.encoded_length pk p.1,
    laws.encoded_length c q.1,
  )

  pub answer_fits :
      (pk c s : Bytes)
      → (length pk ≡ key_size) × All IsByte pk
      → (length c ≡ challenge_size) × All IsByte c
      → (length s ≡ signature_size) × All IsByte s
      → length (lib.put_answer (lib.encode64 pk) (lib.encode64 c) (lib.encode64 s)) ≤ max_body
  answer_fits pk c s p q r = omega (
    arith,
    laws.answer_length pk c s p.1 q.1 r.1,
    p.0,
    q.0,
    r.0,
    laws.encoded_length pk p.1,
    laws.encoded_length c q.1,
    laws.encoded_length s r.1,
  )

  pub auth2_fits :
      (s : Bytes)
      → (length s ≡ signature_size) × All IsByte s
      → length (lib.put_auth2 (lib.encode64 s)) ≤ max_body
  auth2_fits s r = omega (arith, laws.auth2_length s r.1, r.0, laws.encoded_length s r.1)
