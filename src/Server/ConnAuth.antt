-- ===== src/Server/ConnAuth.antt =====
-- internal/connauth/connauth.go: the check that every connection passes, the server's half and the
-- device's. Keys, challenges, signatures and bodies are bytes; RustSecureBox, JSON and base64 are a
-- parameter.
pub mod Respond
pub mod Device
pub mod Proved
pub mod Recognised
pub mod Bodies
pub mod Together
use nox_app.Base.{
  ℕ, String, Bool, true, false, not, ◌&&◌, ◌||◌, Option, none, some, List, [], ◌∷◌, length, ltb,
  ◌==◌, ◌*◌, ◌/◌, if◌then◌else◌, same,
}
use nox_app.Server.PairingLink.{Bytes}

-- What CheckSignature answers.
pub data Checked : Type 0 where
  holds_it : Checked
  fails_it : Checked
  -- ErrInvalidArgument, and every other error.
  refused_key : Checked
  box_error : Checked

pub record AuthLib : Type 0 where
  pub get_challenge : Bytes → ℕ → Option (Bytes × Bytes)
  pub sign_challenge : Bytes → Bytes → Option Bytes
  pub check_signature : Bytes → Bytes → Bytes → Checked
  pub encode64 : Bytes → Bytes
  pub decode64 : Bytes → Option Bytes
  -- json.Marshal and json.Unmarshal of authRequest, authAnswer and auth2Request.
  pub put_auth : Bytes → Bytes → Bytes
  pub get_auth : Bytes → Option (Bytes × Bytes)
  pub put_answer : Bytes → Bytes → Bytes → Bytes
  pub get_answer : Bytes → Option (Bytes × Bytes × Bytes)
  pub put_auth2 : Bytes → Bytes
  pub get_auth2 : Bytes → Option Bytes

abbrev pub auth_path : String
auth_path = "/auth"

abbrev pub auth2_path : String
auth2_path = "/auth2"

abbrev pub max_body : ℕ
max_body = 1024

abbrev pub key_size : ℕ
key_size = 32

abbrev pub challenge_size : ℕ
challenge_size = 32

abbrev pub signature_size : ℕ
signature_size = 64

pub data AuthError : Type 0 where
  malformed : AuthError
  order : AuthError
  method : AuthError
  unauthenticated : AuthError
  signature : AuthError
  wrong_server : AuthError
  refused : AuthError
  after_auth : AuthError → AuthError
  -- RustSecureBox, a connection that ended, and a context that ended.
  box_failed : AuthError
  cut_off : AuthError
  context_ended : AuthError
  deadline_passed : AuthError → AuthError

-- What http.ReadRequest makes of the bytes that arrive: nothing whole, nothing that parses, or a
-- request. A body is none where reading it fails.
pub record Request : Type 0 where
  pub path : String
  pub method : String
  pub chunked : Bool
  pub content_length : Option ℕ
  pub body : Option Bytes

pub data Arrival : Type 0 where
  nothing_whole : Arrival
  not_http : Arrival
  arrived : Request → Arrival

-- One answer written: its status, its body and whether it closes the connection.
pub record Answer : Type 0 where
  pub status : ℕ
  pub body : Option Bytes
  pub closing : Bool

-- A step that goes on, or ends with the answer it wrote, if any.
pub data Step (A : Type 0) : Type 0 where
  go_on : A → Step A
  stopped : List Answer → AuthError → Step A

abbrev pub refuse : {A : Type 0} → ℕ → AuthError → Step A
refuse status kind = stopped (record { status = status; body = none; closing = true } ∷ []) kind

abbrev pub length_ok : Option ℕ → Bool
length_ok none = false
length_ok (some n) = not (ltb max_body n)

abbrev pub has_length : Option ℕ → Bytes → Bool
has_length none body = false
has_length (some n) body = length body == n

abbrev pub read_body : Request → Step Bytes
read_body req = elim req.body [
  | none ↦ refuse 400 malformed
  | some body ↦ if has_length req.content_length body then go_on body else refuse 400 malformed
]

unfoldable pub read_request : Request → String → Step Bytes
read_request req want =
    let body = read_body req in
    if not (same req.path auth_path) && not (same req.path auth2_path)
    then refuse 401 unauthenticated
    else if not (same req.method "POST")
    then refuse 405 method
    else if not (same req.path want)
    then refuse 400 order
    else if req.chunked || not (length_ok req.content_length)
    then refuse 400 malformed
    else body

unfoldable pub read_step : Arrival → String → Step Bytes
unfolding read_request
read_step nothing_whole want = stopped [] cut_off
read_step not_http want = refuse 400 malformed
read_step (arrived req) want = read_request req want

module _ (lib : AuthLib) where
  -- decode, into an array of `size` bytes.
  unfoldable pub decode : Bytes → ℕ → Option Bytes
  decode text size = elim (lib.decode64 text) [
    | none ↦ none
    | some bytes ↦ if length text * 6 / 8 == size && length bytes == size then some bytes else none
  ]

  unfoldable pub check_signature : Bytes → Bytes → Bytes → Option Bool
  check_signature key challenge sig = elim (lib.check_signature key challenge sig) [
    | holds_it ↦ some true
    | fails_it ↦ some false
    | refused_key ↦ some false
    | box_error ↦ none
  ]

  -- The key and the challenge of the body of /auth.
  unfoldable pub read_auth : Bytes → Option (Bytes × Bytes)
  unfolding decode
  read_auth body = elim (lib.get_auth body) [
    | none ↦ none
    | some (pk, challenge) ↦ elim (decode pk key_size) [
      | none ↦ none
      | some device ↦ elim (decode challenge challenge_size) [
        | none ↦ none
        | some theirs ↦ some (device, theirs)
      ]
    ]
  ]

  unfoldable pub read_auth2 : Bytes → Option Bytes
  unfolding decode
  read_auth2 body = elim (lib.get_auth2 body) [
    | none ↦ none
    | some text ↦ decode text signature_size
  ]

  -- The first step's answer: the server's challenge, and the body that carries it.
  unfoldable pub answer_auth : Bytes → ℕ → Bytes → Step (Bytes × Bytes)
  answer_auth server_key draw theirs = elim (lib.get_challenge server_key draw) [
    | none ↦ stopped [] box_failed
    | some (ours, public) ↦ elim (lib.sign_challenge server_key theirs) [
      | none ↦ stopped [] box_failed
      | some sig ↦
          go_on (ours, lib.put_answer (lib.encode64 public) (lib.encode64 ours) (lib.encode64 sig))
    ]
  ]

  -- The second step: the signature over the server's challenge, by the key of the first.
  unfoldable pub check_auth2 : Bytes → Bytes → Bytes → Step (Unit {0})
  unfolding read_auth2 check_signature
  check_auth2 device ours body = elim (read_auth2 body) [
    | none ↦ refuse 400 malformed
    | some sig ↦ elim (check_signature device ours sig) [
      | none ↦ stopped [] box_failed
      | some true ↦ go_on tt
      | some false ↦ refuse 401 signature
    ]
  ]
