-- ===== src/Server/ConnAuth/Respond.antt =====
-- internal/connauth/connauth.go: Respond, the server's half of the check.
use nox_app.Base.{
  ℕ, String, ◌≡◌, refl, Bool, true, false, Option, none, some, List, [], ◌∷◌, if◌then◌else◌,
  same→eq, arith, not,
}
use nox_app.Server.PairingLink.{Bytes}
use nox_app.Server.ConnAuth.{
  AuthLib, AuthError, malformed, after_auth, cut_off, context_ended, deadline_passed, Request,
  Arrival, arrived, nothing_whole, not_http, Answer, go_on, stopped, read_step, read_request,
  read_auth, answer_auth, check_auth2, auth_path, auth2_path,
}

-- What one connection brings: the two requests, the draw of the server's challenge, and whether the
-- two answers get out.
pub record Exchange : Type 0 where
  pub first : Arrival
  pub second : Arrival
  pub draw : ℕ
  pub sent_first : Bool
  pub sent_second : Bool

-- How the check ends: with the key the device proved, or with an error.
pub data Verdict : Type 0 where
  passed : Bytes → Verdict
  failed : AuthError → Verdict

pub record Responded : Type 0 where
  pub answers : List Answer
  pub verdict : Verdict

abbrev ended : List Answer → AuthError → Responded
ended answers e = record { answers = answers; verdict = failed e }

abbrev pub ok_answer : Option Bytes → Answer
ok_answer body = record { status = 200; body = body; closing = false }

module _ (lib : AuthLib) where
  -- respondAuth2, after the answer to /auth.
  unfoldable pub respond_auth2 : Exchange → Bytes → Bytes → Answer → Responded
  respond_auth2 x device ours answer = elim (read_step x.second auth2_path) [
    | stopped more e ↦ ended (answer ∷ more) (after_auth e)
    | go_on body ↦ elim (check_auth2 lib device ours body) [
      | stopped more e ↦ ended (answer ∷ more) (after_auth e)
      | go_on _ ↦
          if x.sent_second
          then record { answers = answer ∷ ok_answer none ∷ []; verdict = passed device }
          else ended (answer ∷ []) (after_auth cut_off)
    ]
  ]

  -- respond, once the body of /auth is read.
  unfoldable pub respond_to : Bytes → Exchange → Bytes × Bytes → Responded
  respond_to server_key x (device, theirs) = elim (answer_auth lib server_key x.draw theirs) [
    | stopped answers e ↦ ended answers e
    | go_on (ours, body) ↦
        let second = respond_auth2 x device ours (ok_answer (some body)) in
        if x.sent_first then second else ended [] cut_off
  ]

  unfoldable pub respond : Bytes → Exchange → Responded
  respond server_key x = elim (read_step x.first auth_path) [
    | stopped answers e ↦ ended answers e
    | go_on body ↦ elim (read_auth lib body) [
      | none ↦ ended (record { status = 400; body = none; closing = true } ∷ []) malformed
      | some shown ↦ respond_to server_key x shown
    ]
  ]

-- What the context does around the exchange: whether it had ended before, whether it left the
-- exchange alone, and whether its deadline is past at the end.
pub record Context : Type 0 where
  pub over_before : Bool
  pub left : Bool
  pub past_deadline : Bool

unfoldable pub settle : Context → Verdict → Verdict
settle ctx (passed key) = if ctx.left then passed key else failed context_ended
settle ctx (failed e) =
    if not ctx.left
    then failed context_ended
    else if ctx.past_deadline
    then failed (deadline_passed e)
    else failed e

-- Respond.
unfoldable pub respond_in : AuthLib → Context → Bytes → Exchange → Responded
unfolding settle
respond_in lib ctx server_key x =
    let r = respond lib server_key x in
    if ctx.over_before
    then ended [] context_ended
    else record { answers = r.answers; verdict = settle ctx r.verdict }

-- A request that a step takes: a POST to its path with a body of the declared length.
pub record IsTaken (arrival : Arrival) (want : String) (body : Bytes) : Type 0 where
  pub req : Request
  pub is_request : arrival ≡ arrived req
  pub at_path : req.path ≡ want
  pub by_post : req.method ≡ "POST"
  pub with_body : req.body ≡ some body

pub read_step-IsTaken :
    (arrival : Arrival) (want : String) (body : Bytes)
    → read_step arrival want ≡ go_on body
    → IsTaken arrival want body
unfolding read_step read_request
read_step-IsTaken nothing_whole want body h = ground arith
read_step-IsTaken not_http want body h = ground arith
read_step-IsTaken (arrived req) want body h = record {
  req = req;
  is_request = refl;
  at_path = ground (arith, same→eq req.path want);
  by_post = ground (arith, same→eq req.method "POST");
  with_body = ground arith;
}
