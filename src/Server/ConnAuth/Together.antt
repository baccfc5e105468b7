-- ===== src/Server/ConnAuth/Together.antt =====
-- internal/connauth/connauth.go: the two halves against each other, over a connection that carries
-- each request and each answer as it was sent.
use nox_app.Base.{ℕ, ◌≡◌, refl, inl, inr, true, none, some, [], ◌∷◌, arith}
use nox_app.Server.PairingLink.{Bytes}
use nox_app.Server.ConnAuth.{
  AuthLib, go_on, read_step, read_auth, answer_auth, check_auth2, check_signature, auth_path,
  auth2_path,
}
use nox_app.Server.ConnAuth.Device.{
  replied, post, read_answer, recognise, initiate_auth2, after_answer, initiate,
}
use nox_app.Server.ConnAuth.Respond.{
  Exchange, passed, ok_answer, respond_auth2, respond_to, respond,
}
use nox_app.Server.ConnAuth.Bodies.{
  AuthLaws, posted, read_step-posted, same_bytes_refl, read_auth_put, read_answer_put,
  read_auth2_put, auth_fits, answer_fits, auth2_fits,
}

module _ (lib : AuthLib) (laws : AuthLaws lib) (device_key server_key : Bytes) (d e : ℕ)
    (dc dp sc sp s1 s2 : Bytes) (device_draw : lib.get_challenge device_key d ≡ some (dc, dp))
    (server_draw : lib.get_challenge server_key e ≡ some (sc, sp))
    (server_sign : lib.sign_challenge server_key dc ≡ some s1)
    (device_sign : lib.sign_challenge device_key sc ≡ some s2) where
  abbrev pub body1 : Bytes
  body1 = lib.put_auth (lib.encode64 dp) (lib.encode64 dc)

  abbrev pub answer1 : Bytes
  answer1 = lib.put_answer (lib.encode64 sp) (lib.encode64 sc) (lib.encode64 s1)

  abbrev pub body2 : Bytes
  body2 = lib.put_auth2 (lib.encode64 s2)

  -- The connection that carries what the two halves send.
  abbrev pub carried : Exchange
  carried = record {
    first = posted auth_path body1;
    second = posted auth2_path body2;
    draw = e;
    sent_first = true;
    sent_second = true;
  }

  first_read : read_step (posted auth_path body1) auth_path ≡ go_on body1
  first_read = read_step-posted auth_path body1 (inl refl) (
      auth_fits lib laws dp dc (laws.public_fits device_key d dc dp device_draw)
        (laws.challenge_fits device_key d dc dp device_draw))

  second_read : read_step (posted auth2_path body2) auth2_path ≡ go_on body2
  second_read =
      read_step-posted auth2_path body2 (inr refl)
        (auth2_fits lib laws s2 (laws.signature_fits device_key sc s2 device_sign))

  device_shown : read_auth lib body1 ≡ some (dp, dc)
  device_shown =
      read_auth_put lib laws dp dc (laws.public_fits device_key d dc dp device_draw)
        (laws.challenge_fits device_key d dc dp device_draw)

  server_answer : answer_auth lib server_key e dc ≡ go_on (sc, answer1)
  unfolding answer_auth
  server_answer = rw (answer_auth, server_draw, server_sign) refl

  device_signed : check_auth2 lib dp sc body2 ≡ go_on tt
  unfolding check_auth2 check_signature
  device_signed =
      rw
        (
          check_auth2,
          read_auth2_put lib laws s2 (laws.signature_fits device_key sc s2 device_sign),
          check_signature,
          laws.signature_holds device_key d dc dp sc s2 device_draw device_sign,
        )
        refl

  server_passes :
      respond lib server_key carried
      ≡ record { answers = ok_answer (some answer1) ∷ ok_answer none ∷ []; verdict = passed dp }
  unfolding respond respond_to respond_auth2
  server_passes =
      rw
        (
          respond, first_read, device_shown, respond_to, server_answer, respond_auth2, second_read,
          device_signed,
        )
        refl

  reply_read : post (replied 200 (some answer1)) ≡ go_on answer1
  unfolding post
  reply_read = ground (
    arith,
    answer_fits lib laws sp sc s1 (laws.public_fits server_key e sc sp server_draw)
        (laws.challenge_fits server_key e sc sp server_draw)
        (laws.signature_fits server_key dc s1 server_sign),
  )

  reply2_read : post (replied 200 (some [])) ≡ go_on []
  unfolding post
  reply2_read = ground arith

  server_shown : read_answer lib answer1 ≡ some (sp, sc, s1)
  server_shown =
      read_answer_put lib laws sp sc s1 (laws.public_fits server_key e sc sp server_draw)
        (laws.challenge_fits server_key e sc sp server_draw)
        (laws.signature_fits server_key dc s1 server_sign)

  server_recognised : recognise lib sp dc (sp, sc, s1) ≡ go_on sc
  unfolding recognise check_signature
  server_recognised =
      rw
        (
          recognise,
          check_signature,
          laws.signature_holds server_key e sc sp dc s1 server_draw server_sign,
          same_bytes_refl sp,
        )
        refl

  device_passes :
      initiate lib device_key d sp (replied 200 (some answer1)) (replied 200 (some []))
      ≡ record { sent = (auth_path, body1) ∷ (auth2_path, body2) ∷ []; verdict = go_on tt }
  unfolding initiate after_answer initiate_auth2
  device_passes =
      rw
        (
          initiate, device_draw, reply_read, after_answer, server_shown, server_recognised,
          initiate_auth2, device_sign, reply2_read,
        )
        refl

  -- The two halves pass each other. Over a connection that carries what each sends, and where
  -- RustSecureBox draws and signs for both and the libraries keep to `AuthLaws`, the device that knows the server's key sends two
  -- requests and is done, and the server answers each with 200 and gets the device's key.
  pub respond-initiate :
      (initiate lib device_key d sp (replied 200 (some answer1)) (replied 200 (some []))
        ≡ record { sent = (auth_path, body1) ∷ (auth2_path, body2) ∷ []; verdict = go_on tt })
      × (respond lib server_key carried ≡ record {
        answers = ok_answer (some answer1) ∷ ok_answer none ∷ [];
        verdict = passed dp;
      })
  respond-initiate = (device_passes, server_passes)
