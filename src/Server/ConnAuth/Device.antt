-- ===== src/Server/ConnAuth/Device.antt =====
-- internal/connauth/connauth.go: Initiate, the device's half of the check.
use nox_app.Base.{
  ℕ, String, true, false, Option, none, some, List, [], ◌∷◌, ◌++◌, if◌then◌else◌, not,
}
use nox_app.Server.PairingLink.{Bytes}
use nox_app.Server.ConnAuth.{
  AuthLib, AuthError, malformed, cut_off, Step, go_on, stopped, check_signature, auth_path,
  auth2_path,
}
use nox_app.Base.{length, ltb, ◌==◌}
use nox_app.Server.ConnAuth.{
  signature, wrong_server, refused, box_failed, key_size, challenge_size, signature_size, max_body,
  decode,
}
use nox_app.Server.PairingLink.Issue.{same_bytes}

-- What comes of a request: it is not sent, its answer is not read, or there is an answer, whose body
-- is none where reading it fails.
pub data Reply : Type 0 where
  not_sent : Reply
  not_read : Reply
  replied : ℕ → Option Bytes → Reply

abbrev answered : ℕ → Bytes → Step Bytes
answered status body =
    if not (status == 200)
    then stopped [] refused
    else if ltb max_body (length body)
    then stopped [] malformed
    else go_on body

-- post: the body of a 200.
unfoldable pub post : Reply → Step Bytes
post not_sent = stopped [] cut_off
post not_read = stopped [] cut_off
post (replied status none) = stopped [] cut_off
post (replied status (some body)) = answered status body

-- What a device has sent, in order, and how its half ends.
pub record Initiated : Type 0 where
  pub sent : List (String × Bytes)
  pub verdict : Step (Unit {0})

abbrev lost : List (String × Bytes) → AuthError → Initiated
lost sent e = record { sent = sent; verdict = stopped [] e }

module _ (lib : AuthLib) where
  -- The server's key, challenge and signature of the body of its answer.
  unfoldable pub read_answer : Bytes → Option (Bytes × Bytes × Bytes)
  read_answer body = elim (lib.get_answer body) [
    | none ↦ none
    | some (pk, challenge, sig) ↦ elim (decode lib pk key_size) [
      | none ↦ none
      | some public ↦ elim (decode lib challenge challenge_size) [
        | none ↦ none
        | some theirs ↦ elim (decode lib sig signature_size) [
          | none ↦ none
          | some own ↦ some (public, theirs, own)
        ]
      ]
    ]
  ]

  -- The server is the one the link named.
  unfoldable pub recognise : Bytes → Bytes → Bytes × Bytes × Bytes → Step Bytes
  recognise server ours (public, theirs, sig) = elim (check_signature lib public ours sig) [
    | none ↦ stopped [] box_failed
    | some false ↦ stopped [] signature
    | some true ↦ if same_bytes public server then go_on theirs else stopped [] wrong_server
  ]

  -- The second request, once the server is recognised.
  unfoldable pub initiate_auth2 : Bytes → Bytes → List (String × Bytes) → Reply → Initiated
  initiate_auth2 device_key theirs sent reply = elim (lib.sign_challenge device_key theirs) [
    | none ↦ lost sent box_failed
    | some mine ↦
        let sent' = sent ++ (auth2_path, lib.put_auth2 (lib.encode64 mine)) ∷ [] in
        elim (post reply) [
          | stopped _ e ↦ lost sent' e
          | go_on _ ↦ record { sent = sent'; verdict = go_on tt }
        ]
  ]

  unfoldable pub after_answer :
      Bytes → Bytes → Bytes → List (String × Bytes) → Bytes → Reply → Initiated
  after_answer device_key server ours sent answer reply2 = elim (read_answer answer) [
    | none ↦ lost sent malformed
    | some parts ↦ elim (recognise server ours parts) [
      | stopped _ e ↦ lost sent e
      | go_on theirs ↦ initiate_auth2 device_key theirs sent reply2
    ]
  ]

  -- initiate, with the draw of the device's challenge and what comes of its two requests.
  unfoldable pub initiate : Bytes → ℕ → Bytes → Reply → Reply → Initiated
  initiate device_key draw server reply1 reply2 = elim (lib.get_challenge device_key draw) [
    | none ↦ lost [] box_failed
    | some (ours, public) ↦
        let sent = (auth_path, lib.put_auth (lib.encode64 public) (lib.encode64 ours)) ∷ [] in
        elim (post reply1) [
          | stopped _ e ↦ lost sent e
          | go_on answer ↦ after_answer device_key server ours sent answer reply2
        ]
  ]
