-- ===== src/Server/TransferTokens/Keeps.antt =====
-- internal/server/tokens.go: what every entry keeps through a history of calls.
use nox_app.Base.{ℕ, ◌+◌, inl, inr, String, List, [], ◌∷◌, All, Option-cases}
use nox_app.Sql.{select, delete}
use nox_app.Sql.Laws.{All-delete}
use nox_app.Server.TransferTokens.{
  token_ttl, TokenOp, TokenEntry, Tokens, has_token, is_swept, issue, consume, Call, issued,
  consumed, run_calls,
}

module _ (P : String × TokenEntry → Type 0) where
  pub consume-All :
      (token : String) (op : TokenOp) (now : ℕ) (tokens : Tokens)
      → All P tokens
      → All P (consume token op now tokens).0
  unfolding consume
  consume-All token op now tokens a = elim (Option-cases (select (has_token token) tokens)) [
    | inl n ↦ rw (n, consume) a
    | inr (e, f) ↦ rw (f, consume) (All-delete (has_token token) P tokens a)
  ]

  -- What every issue of a history gives its entry, every entry has.
  abbrev pub Gives : Call → Type 0
  Gives (issued token file_id op offset now) =
      P (token, record { file_id = file_id; op = op; offset = offset; expires = now + token_ttl })
  Gives (consumed token op now) = Unit

  pub run_calls-All :
      (calls : List Call) (tokens : Tokens)
      → All Gives calls
      → All P tokens
      → All P (run_calls calls tokens)
  unfolding run_calls issue
  run_calls-All [] tokens g a = a
  run_calls-All (issued token file_id op offset now ∷ cs) tokens g a =
      run_calls-All cs (issue token file_id op offset now tokens) g.1 (
        g.0,
        All-delete (has_token token) P (delete (is_swept file_id op now) tokens)
            (All-delete (is_swept file_id op now) P tokens a),
      )
  run_calls-All (consumed token op now ∷ cs) tokens g a =
      run_calls-All cs (consume token op now tokens).0 g.1 (consume-All token op now tokens a)
