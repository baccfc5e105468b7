-- ===== src/Server/ConnAuth/Proved.antt =====
-- internal/connauth/connauth.go: what a connection that passed the check has proved.
use nox_app.Base.{subst, sym, ◌≡◌, refl, inl, inr, some, List, arith, Option-cases, ◌⊎◌}
use nox_app.Server.PairingLink.{Bytes}
use nox_app.Server.ConnAuth.{
  AuthLib, holds_it, AuthError, Answer, Step, go_on, stopped, read_step, read_auth, read_auth2,
  answer_auth, check_auth2, check_signature, auth_path, auth2_path,
}
use nox_app.Server.ConnAuth.Respond.{
  Exchange, Verdict, passed, failed, ok_answer, respond_auth2, respond_to, respond, Context, settle,
  respond_in, IsTaken, read_step-IsTaken,
}

pub Step-cases :
    {A : Type 0} (s : Step A)
    → ((a : A) × (s ≡ go_on a))
      ⊎ ((answers : List Answer) × (e : AuthError) × (s ≡ stopped answers e))
Step-cases (go_on a) = inl (a, refl)
Step-cases (stopped answers e) = inr (answers, e, refl)

-- A key that a connection proved: the key of its /auth, and in its /auth2 a signature of that key
-- over the challenge that the server drew for this connection.
pub record IsProved (lib : AuthLib) (server_key : Bytes) (x : Exchange) (key : Bytes) : Type 0 where
  pub body : Bytes
  pub theirs : Bytes
  pub ours : Bytes
  pub public : Bytes
  pub body2 : Bytes
  pub sig : Bytes
  pub taken : IsTaken x.first auth_path body
  pub shown : read_auth lib body ≡ some (key, theirs)
  pub drawn : lib.get_challenge server_key x.draw ≡ some (ours, public)
  pub taken2 : IsTaken x.second auth2_path body2
  pub signed : read_auth2 lib body2 ≡ some sig
  pub holds_sig : lib.check_signature key ours sig ≡ holds_it

-- What the second step has proved.
record IsSigned (lib : AuthLib) (x : Exchange) (key ours : Bytes) : Type 0 where
  body2 : Bytes
  sig : Bytes
  taken2 : IsTaken x.second auth2_path body2
  signed : read_auth2 lib body2 ≡ some sig
  holds_sig : lib.check_signature key ours sig ≡ holds_it

module _ (lib : AuthLib) (x : Exchange) where
  respond_auth2-IsSigned :
      (device ours : Bytes) (answer : Answer) (key : Bytes)
      → (respond_auth2 lib x device ours answer).verdict ≡ passed key
      → (key ≡ device) × IsSigned lib x device ours
  unfolding respond_auth2 check_auth2 check_signature
  respond_auth2-IsSigned device ours answer key h =
      elim (Step-cases (read_step x.second auth2_path)) [
        | inr (more, e, r) ↦ ground arith
        | inl (body2, r) ↦ elim (Option-cases (read_auth2 lib body2)) [
          | inl n ↦ ground arith
          | inr (sig, s) ↦ (
            ground arith,
            record {
              body2 = body2;
              sig = sig;
              taken2 = read_step-IsTaken x.second auth2_path body2 r;
              signed = s;
              holds_sig = ground arith;
            },
          )
        ]
      ]

  respond_to-IsProved :
      (server_key body device theirs key : Bytes)
      → IsTaken x.first auth_path body
      → read_auth lib body ≡ some (device, theirs)
      → (respond_to lib server_key x (device, theirs)).verdict ≡ passed key
      → IsProved lib server_key x key
  unfolding respond_to answer_auth
  respond_to-IsProved server_key body device theirs key t s h =
      elim (Option-cases (lib.get_challenge server_key x.draw)) [
        | inl n ↦ ground arith
        | inr ((ours, public), d) ↦ elim (Option-cases (lib.sign_challenge server_key theirs)) [
          | inl n ↦ ground arith
          | inr (own, o) ↦
              let (is_key, p) =
                respond_auth2-IsSigned device ours
                  (ok_answer (
                    some (
                      lib.put_answer (lib.encode64 public) (lib.encode64 ours) (lib.encode64 own))))
                  key (ground arith) in
              subst (IsProved lib server_key x) (sym is_key) (record {
                body = body;
                theirs = theirs;
                ours = ours;
                public = public;
                body2 = p.body2;
                sig = p.sig;
                taken = t;
                shown = s;
                drawn = d;
                taken2 = p.taken2;
                signed = p.signed;
                holds_sig = p.holds_sig;
              })
        ]
      ]

  respond-IsProved :
      (server_key key : Bytes)
      → (respond lib server_key x).verdict ≡ passed key
      → IsProved lib server_key x key
  unfolding respond
  respond-IsProved server_key key h = elim (Step-cases (read_step x.first auth_path)) [
    | inr (more, e, r) ↦ ground arith
    | inl (body, r) ↦ elim (Option-cases (read_auth lib body)) [
      | inl n ↦ ground arith
      | inr ((device, theirs), s) ↦
          respond_to-IsProved server_key body device theirs key
            (read_step-IsTaken x.first auth_path body r) s (ground arith)
    ]
  ]

settled : (ctx : Context) (v : Verdict) (key : Bytes) → settle ctx v ≡ passed key → v ≡ passed key
unfolding settle
settled ctx (passed k) key h = ground arith
settled ctx (failed e) key h = ground arith

-- Respond gives out a key only where the connection proved it: the body of its POST to /auth showed
-- that key, and the body of its POST to /auth2 carried a signature that RustSecureBox finds to hold,
-- of that key, over the challenge that the server drew for this very connection.
pub respond_in-IsProved :
    (lib : AuthLib) (ctx : Context) (server_key : Bytes) (x : Exchange) (key : Bytes)
    → (respond_in lib ctx server_key x).verdict ≡ passed key
    → IsProved lib server_key x key
unfolding respond_in
respond_in-IsProved lib ctx server_key x key h =
    respond-IsProved lib x server_key key
      (settled ctx (respond lib server_key x).verdict key (ground arith))
