-- ===== src/Server/TransferTokens.antt =====
-- internal/server/tokens.go: the one-shot tokens of uploads and downloads. A moment is its
-- nanoseconds; the token of an issue is what the random number generator gave.
mod Keeps
pub mod Once
pub mod Latest
use nox_app.Base.{
  ℕ, ◌+◌, ◌*◌, ◌≤◌, ◌≡◌, refl, ap, sym, ◌∙◌, subst, inl, inr, ◌⊎◌, String, Bool, true, false, not,
  ◌&&◌, ◌||◌, Option, none, some, List, [], ◌∷◌, ltb, if◌then◌else◌, same, same→eq, same_refl,
  arith, All, Option-cases, Bool-cases,
}
use nox_app.Sql.{select, delete}
use nox_app.Sql.Laws.{All-delete, All-select, All-mono, select-meets}

abbrev pub token_ttl : ℕ
token_ttl = 10 * 60 * 1000000000

pub data TokenOp : Type 0 where
  upload : TokenOp
  download : TokenOp

abbrev pub same_op : TokenOp → TokenOp → Bool
same_op upload upload = true
same_op upload download = false
same_op download upload = false
same_op download download = true

pub record TokenEntry : Type 0 where
  pub file_id : String
  pub op : TokenOp
  pub offset : ℕ
  pub expires : ℕ

-- The map tokens.
abbrev pub Tokens : Type 0
Tokens = List (String × TokenEntry)

abbrev pub has_token : String → String × TokenEntry → Bool
has_token token e = same e.0 token

-- What the sweep of issue drops: the upload tokens of the same file, and what has expired.
abbrev pub is_swept : String → TokenOp → ℕ → String × TokenEntry → Bool
is_swept file_id op now e =
    (same_op op upload && same_op e.1.op upload && same e.1.file_id file_id) || ltb e.1.expires now

unfoldable pub issue : String → String → TokenOp → ℕ → ℕ → Tokens → Tokens
issue token file_id op offset now tokens =
    (token, record { file_id = file_id; op = op; offset = offset; expires = now + token_ttl })
    ∷ delete (has_token token) (delete (is_swept file_id op now) tokens)

-- What a consume of a known token returns.
abbrev pub redeemed : TokenOp → ℕ → TokenEntry → Option (String × ℕ)
redeemed op now e =
    if not (same_op e.op op) || ltb e.expires now then none else some (e.file_id, e.offset)

unfoldable pub consume : String → TokenOp → ℕ → Tokens → Tokens × Option (String × ℕ)
consume token op now tokens = elim (select (has_token token) tokens) [
  | none ↦ (tokens, none)
  | some e ↦ (delete (has_token token) tokens, redeemed op now e.1)
]

-- The calls of a server's life, in the order they take the lock.
pub data Call : Type 0 where
  issued : (token file_id : String) (op : TokenOp) (offset now : ℕ) → Call
  consumed : (token : String) (op : TokenOp) (now : ℕ) → Call

abbrev pub run_call : Call → Tokens → Tokens
run_call (issued token file_id op offset now) tokens = issue token file_id op offset now tokens
run_call (consumed token op now) tokens = (consume token op now tokens).0

unfoldable pub run_calls : List Call → Tokens → Tokens
run_calls [] tokens = tokens
run_calls (c ∷ cs) tokens = run_calls cs (run_call c tokens)
