-- ===== src/Server/TransferTokens/Latest.antt =====
-- internal/server/tokens.go: the upload token issued last for a file.
use nox_app.Base.{
  ℕ, ◌+◌, ◌≤◌, ◌≡◌, refl, sym, ◌∙◌, inl, inr, ◌⊎◌, String, false, ◌&&◌, some, List, same, same→eq,
  same_refl, arith, All, Option-cases,
}
use nox_app.Sql.{select, delete}
use nox_app.Sql.Laws.{All-delete, All-select, All-mono, select-meets}
use nox_app.Server.TransferTokens.{
  token_ttl, upload, same_op, TokenEntry, Tokens, has_token, is_swept, issue, redeemed, consume,
  Call, issued, consumed, run_calls,
}
use nox_app.Server.TransferTokens.Keeps.{Gives, run_calls-All}
use nox_app.Sql.Counts.{All-of_count, count-delete_self}

-- A call that issues no upload token for the file.
abbrev pub Elsewhere : String → Call → Type 0
Elsewhere file (issued t file_id op offset now) = same_op op upload && same file_id file ≡ false
Elsewhere file (consumed t op now) = Unit

-- The entry is that of the token, or admits no upload of the file.
abbrev pub IsLatest : String → String → ℕ → ℕ → String × TokenEntry → Type 0
IsLatest file token offset expires e =
    ((e.0 ≡ token) × (e.1.offset ≡ offset) × (e.1.expires ≡ expires))
    ⊎ (same_op e.1.op upload && same e.1.file_id file ≡ false)

module _ (file token : String) (offset now : ℕ) where
  swept_entry :
      (e : String × TokenEntry)
      → is_swept file upload now e ≡ false
      → IsLatest file token offset (now + token_ttl) e
  swept_entry e h = inr (ground arith)

  issue-All-IsLatest :
      (tokens : Tokens)
      → All
          (IsLatest file token offset (now + token_ttl))
          (issue token file upload offset now tokens)
  unfolding issue
  issue-All-IsLatest tokens = (
    inl (refl, refl, refl),
    All-delete (has_token token) (IsLatest file token offset (now + token_ttl))
        (delete (is_swept file upload now) tokens)
        (All-mono (λ e. is_swept file upload now e ≡ false)
          (IsLatest file token offset (now + token_ttl)) (delete (is_swept file upload now) tokens)
          swept_entry
          (All-of_count (is_swept file upload now) (delete (is_swept file upload now) tokens)
            (count-delete_self (is_swept file upload now) tokens))),
  )

  Elsewhere-Gives :
      (c : Call) → Elsewhere file c → Gives (IsLatest file token offset (now + token_ttl)) c
  Elsewhere-Gives (issued t file_id op o n) s = inr s
  Elsewhere-Gives (consumed t op n) s = tt

  of_entry :
      (t : String) (now' o : ℕ) (e : String × TokenEntry)
      → e.0 ≡ t
      → IsLatest file token offset (now + token_ttl) e
      → redeemed upload now' e.1 ≡ some (file, o)
      → (t ≡ token) × (o ≡ offset) × (now' ≤ now + token_ttl)
  of_entry t now' o e n (inl (a, b, c)) h = (sym n ∙ a, ground arith, ground arith)
  of_entry t now' o e n (inr m) h = ground (arith, same_refl file)

  consume_latest :
      (t : String) (now' o : ℕ) (tokens : Tokens)
      → All (IsLatest file token offset (now + token_ttl)) tokens
      → (consume t upload now' tokens).1 ≡ some (file, o)
      → (t ≡ token) × (o ≡ offset) × (now' ≤ now + token_ttl)
  unfolding consume
  consume_latest t now' o tokens a h = elim (Option-cases (select (has_token t) tokens)) [
    | inl n ↦ ground arith
    | inr (e, f) ↦
        of_entry t now' o e (same→eq e.0 t (select-meets (has_token t) tokens e f))
          (All-select (has_token t) (IsLatest file token offset (now + token_ttl)) tokens e a f)
          (ground arith)
  ]

  -- From the moment an upload token is issued for a file until the next one is, the file's bytes are
  -- admitted with that token alone, from the offset it was issued for, and no later than its
  -- lifetime, whatever was issued before and whatever else is issued and redeemed meanwhile.
  pub consume-latest :
      (t : String) (o now' : ℕ) (tokens : Tokens) (calls : List Call)
      → All (Elsewhere file) calls
      → (consume t upload now' (run_calls calls (issue token file upload offset now tokens))).1
        ≡ some (file, o)
      → (t ≡ token) × (o ≡ offset) × (now' ≤ now + token_ttl)
  consume-latest t o now' tokens calls s h =
      consume_latest t now' o (run_calls calls (issue token file upload offset now tokens))
        (run_calls-All (IsLatest file token offset (now + token_ttl)) calls
          (issue token file upload offset now tokens)
          (All-mono (Elsewhere file) (Gives (IsLatest file token offset (now + token_ttl))) calls
            Elsewhere-Gives s)
          (issue-All-IsLatest tokens))
        h
