-- ===== src/Server/Tests/Auth.antt =====
-- Tests of internal/connauth, over a small stand-in for the libraries: a key's number of bytes is
-- all there is to it, and a signature is the public key twice.
use nox_app.Base.{
  subst, some_inj, ℕ, zero, suc, ◌+◌, ◌-◌, ◌*◌, ◌/◌, ◌%◌, ◌≤◌, ◌<◌, ◌≡◌, refl, ap, Bool, true,
  false, Option, none, some, List, [], ◌∷◌, ◌++◌, length, length-append, take, drop, ◌==◌,
  if◌then◌else◌, arith, All,
}
use nox_app.Server.PairingLink.{Bytes}
use nox_app.Server.PairingLink.Laws.{IsByte, take-append, drop-append}
use nox_app.Server.PairingLink.Issue.{same_bytes}
use nox_app.Server.ConnAuth.{
  AuthLib, holds_it, fails_it, Checked, go_on, Step, auth_path, auth2_path,
}
use nox_app.Server.ConnAuth.Respond.{Exchange, Context, passed, respond, respond_in, ok_answer}
use nox_app.Server.ConnAuth.Device.{replied, initiate}
use nox_app.Server.ConnAuth.Proved.{IsProved, respond_in-IsProved}
use nox_app.Server.ConnAuth.Recognised.{IsRecognised, initiate-IsRecognised}
use nox_app.Server.ConnAuth.Bodies.{posted, AuthLaws, same_bytes_refl}
use nox_app.Server.ConnAuth.Together.{respond-initiate}

abbrev fill : ℕ → ℕ → Bytes
fill zero b = []
fill (suc n) b = b ∷ fill n b

abbrev tag : Bytes → ℕ
tag key = length key % 256

-- The number of letters of base64 for so many bytes, less the bytes.
abbrev padding : ℕ → ℕ
padding n = (8 * n + 5) / 6 - n

abbrev split_first : Bytes → Option (Bytes × Bytes)
split_first [] = none
split_first (n ∷ rest) = some (take n rest, drop n rest)

abbrev split_two : Bytes → Option (Bytes × Bytes × Bytes)
split_two [] = none
split_two (n ∷ []) = none
split_two (n ∷ m ∷ rest) = some (take n rest, take m (drop n rest), drop m (drop n rest))

abbrev doubled : Bytes → Bytes → Checked
doubled public sig = if same_bytes (public ++ public) sig then holds_it else fails_it

abbrev small_lib : AuthLib
small_lib = record {
  get_challenge = λ key draw. some (fill 32 (draw % 256), fill 32 (tag key));
  sign_challenge = λ key c. some (fill 64 (tag key));
  check_signature = λ public c sig. doubled public sig;
  encode64 = λ b. b ++ fill (padding (length b)) 0;
  decode64 = λ text. some (take (length text * 6 / 8) text);
  put_auth = λ pk c. length pk ∷ (pk ++ c);
  get_auth = split_first;
  put_answer = λ pk c s. length pk ∷ length c ∷ (pk ++ (c ++ s));
  get_answer = split_two;
  put_auth2 = λ s. s;
  get_auth2 = λ s. some s;
}

length-fill : (n b : ℕ) → length (fill n b) ≡ n
length-fill zero b = refl
length-fill (suc n) b = omega (arith, length-fill n b)

fill_bytes : (n b : ℕ) → b < 256 → All IsByte (fill n b)
fill_bytes zero b h = tt
fill_bytes (suc n) b h = (h, fill_bytes n b h)

encoded : (b : Bytes) → length (b ++ fill (padding (length b)) 0) * 6 / 8 ≡ length b
encoded b =
    omega (arith, length-append b (fill (padding (length b)) 0), length-fill (padding (length b)) 0)

decoded :
    (b : Bytes)
    → take (length (b ++ fill (padding (length b)) 0) * 6 / 8) (b ++ fill (padding (length b)) 0)
      ≡ b
decoded b = rw (encoded b) (take-append b (fill (padding (length b)) 0))

two_parts : (pk c s : Bytes) → split_two (length pk ∷ length c ∷ (pk ++ (c ++ s))) ≡ some (pk, c, s)
two_parts pk c s =
    rw (take-append pk (c ++ s), drop-append pk (c ++ s), take-append c s, drop-append c s) refl

one_part : (pk c : Bytes) → split_first (length pk ∷ (pk ++ c)) ≡ some (pk, c)
one_part pk c = rw (take-append pk c, drop-append pk c) refl

doubled_holds : (t : ℕ) → doubled (fill 32 t) (fill 64 t) ≡ holds_it
doubled_holds t = rw (same_bytes_refl (fill 64 t)) refl

Fits : ℕ → Bytes → Type 0
Fits n bytes = (length bytes ≡ n) × All IsByte bytes

fill-Fits : (n b : ℕ) → b < 256 → Fits n (fill n b)
unfolding Fits
fill-Fits n b h = (length-fill n b, fill_bytes n b h)

module _ {c p c' p' : Bytes}
    (h : ◌≡◌ {A = Option (Bytes × Bytes)} (some (c, p)) (some (c', p'))) where
  firsts : c ≡ c'
  firsts = ap (λ z. z.0) (some_inj (c, p) (c', p') h)

  seconds : p ≡ p'
  seconds = ap (λ z. z.1) (some_inj (c, p) (c', p') h)

small_lib-AuthLaws : AuthLaws small_lib
unfolding Fits
small_lib-AuthLaws = record {
  decode_encode = λ b h. ap some (decoded b);
  encoded_length = λ b h. encoded b;
  read_auth_body = λ pk c p q. one_part (small_lib.encode64 pk) (small_lib.encode64 c);
  read_answer_body = λ pk c s p q r.
      two_parts (small_lib.encode64 pk) (small_lib.encode64 c) (small_lib.encode64 s);
  read_auth2_body = λ s r. refl;
  auth_length =
      λ pk c p q. omega (arith, length-append (small_lib.encode64 pk) (small_lib.encode64 c));
  answer_length = λ pk c s p q r. omega (
    arith,
    length-append (small_lib.encode64 pk) (small_lib.encode64 c ++ small_lib.encode64 s),
    length-append (small_lib.encode64 c) (small_lib.encode64 s),
  );
  auth2_length = λ s r. omega arith;
  challenge_fits =
      λ key draw c p h. subst (Fits 32) (firsts h) (fill-Fits 32 (draw % 256) (omega arith));
  public_fits =
      λ key draw c p h. subst (Fits 32) (seconds h) (fill-Fits 32 (tag key) (omega arith));
  signature_fits = λ key c s h.
      subst (Fits 64) (some_inj (fill 64 (tag key)) s h) (fill-Fits 64 (tag key) (omega arith));
  signature_holds = λ key draw own p c s h k.
      subst (λ z. doubled z s ≡ holds_it) (seconds h)
        (subst (λ z. doubled (fill 32 (tag key)) z ≡ holds_it) (some_inj (fill 64 (tag key)) s k)
          (doubled_holds (tag key)));
}

-- A phone, key of one byte, against a server, key of two.
abbrev phone_key : Bytes
phone_key = 7 ∷ []

abbrev house_key : Bytes
house_key = 7 ∷ 7 ∷ []

abbrev first_body : Bytes
first_body = small_lib.put_auth (small_lib.encode64 (fill 32 1)) (small_lib.encode64 (fill 32 5))

abbrev house_answer : Bytes
house_answer =
    small_lib.put_answer (small_lib.encode64 (fill 32 2)) (small_lib.encode64 (fill 32 9))
      (small_lib.encode64 (fill 64 2))

abbrev second_body : Bytes
second_body = small_lib.put_auth2 (small_lib.encode64 (fill 64 1))

abbrev at_home : Exchange
at_home = record {
  first = posted auth_path first_body;
  second = posted auth2_path second_body;
  draw = 9;
  sent_first = true;
  sent_second = true;
}

respond-initiate_example :
    (initiate small_lib phone_key 5
        (fill 32 2)
        (replied 200 (some house_answer))
        (replied 200 (some []))
      ≡ record {
        sent = (auth_path, first_body) ∷ (auth2_path, second_body) ∷ [];
        verdict = go_on tt;
      })
    × (respond small_lib house_key at_home ≡ record {
      answers = ok_answer (some house_answer) ∷ ok_answer none ∷ [];
      verdict = passed (fill 32 1);
    })
respond-initiate_example =
    respond-initiate small_lib small_lib-AuthLaws phone_key house_key 5 9 (fill 32 5) (fill 32 1)
      (fill 32 9) (fill 32 2) (fill 64 2) (fill 64 1) refl refl refl refl

abbrev in_time : Context
in_time = record { over_before = false; left = true; past_deadline = false }

respond_in-IsProved_example : IsProved small_lib house_key at_home (fill 32 1)
unfolding respond_in respond nox_app.Server.ConnAuth.read_step nox_app.Base.key_dec
    nox_app.Server.ConnAuth.read_auth nox_app.Server.ConnAuth.Respond.respond_to
    nox_app.Server.ConnAuth.answer_auth nox_app.Server.ConnAuth.Respond.respond_auth2
    nox_app.Server.ConnAuth.check_auth2 same_bytes
respond_in-IsProved_example =
    respond_in-IsProved small_lib in_time house_key at_home (fill 32 1) refl

initiate-IsRecognised_example :
    IsRecognised small_lib phone_key 5 (fill 32 2) (replied 200 (some house_answer))
unfolding initiate nox_app.Server.ConnAuth.Device.post nox_app.Server.ConnAuth.Device.after_answer
    nox_app.Server.ConnAuth.Device.read_answer nox_app.Server.ConnAuth.decode
    nox_app.Server.ConnAuth.Device.recognise nox_app.Server.ConnAuth.check_signature same_bytes
    nox_app.Server.ConnAuth.Device.initiate_auth2
initiate-IsRecognised_example =
    initiate-IsRecognised small_lib phone_key 5 (fill 32 2) (replied 200 (some house_answer))
      (replied 200 (some [])) (omega arith)
