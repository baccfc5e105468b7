-- ===== src/Server/TransferTokens/Once.antt =====
-- internal/server/tokens.go: a token is good once, for what it was issued for.
use nox_app.Base.{ℕ, ◌≡◌, inl, inr, String, false, none, List, same, arith, All, Option-cases}
use nox_app.Sql.{select, delete}
use nox_app.Sql.Laws.{All-select, All-mono, select-meets}
use nox_app.Server.TransferTokens.{
  TokenOp, Tokens, has_token, consume, Call, issued, consumed, run_calls,
}
use nox_app.Server.TransferTokens.Keeps.{Gives, run_calls-All}
use nox_app.Sql.Laws.{count_of_select}
use nox_app.Sql.Counts.{All-of_count, count-delete_self}

-- A call that does not issue the token.
abbrev pub Spares : String → Call → Type 0
Spares token (issued t file_id op offset now) = same t token ≡ false
Spares token (consumed t op now) = Unit

consume_drops :
    (token : String) (op : TokenOp) (now : ℕ) (tokens : Tokens)
    → All (λ e. has_token token e ≡ false) (consume token op now tokens).0
unfolding consume
consume_drops token op now tokens = elim (Option-cases (select (has_token token) tokens)) [
  | inl n ↦
      rw (n, consume)
        (All-of_count (has_token token) tokens (count_of_select (has_token token) tokens n))
  | inr (e, f) ↦
      rw (f, consume)
        (All-of_count (has_token token) (delete (has_token token) tokens)
          (count-delete_self (has_token token) tokens))
]

consume_absent :
    (token : String) (op : TokenOp) (now : ℕ) (tokens : Tokens)
    → All (λ e. has_token token e ≡ false) tokens
    → (consume token op now tokens).1 ≡ none
unfolding consume
consume_absent token op now tokens a = elim (Option-cases (select (has_token token) tokens)) [
  | inl n ↦ ground arith
  | inr (e, f) ↦ ground (
    arith,
    select-meets (has_token token) tokens e f,
    All-select (has_token token) (λ x. has_token token x ≡ false) tokens e a f,
  )
]

Spares-Gives :
    (token : String) (c : Call) → Spares token c → Gives (λ e. has_token token e ≡ false) c
Spares-Gives token (issued t file_id op offset now) s = s
Spares-Gives token (consumed t op now) s = tt

-- A token is good once: after a call that redeems it, well or badly, it is refused for as long as it
-- is not issued again, whatever else is issued and redeemed meanwhile.
pub consume-once :
    (token : String) (op op' : TokenOp) (now now' : ℕ) (tokens : Tokens) (calls : List Call)
    → All (Spares token) calls
    → (consume token op' now' (run_calls calls (consume token op now tokens).0)).1 ≡ none
consume-once token op op' now now' tokens calls s =
    consume_absent token op' now' (run_calls calls (consume token op now tokens).0) (
      run_calls-All (λ e. has_token token e ≡ false) calls (consume token op now tokens).0
        (All-mono (Spares token) (Gives (λ e. has_token token e ≡ false)) calls (Spares-Gives token)
          s)
        (consume_drops token op now tokens))
