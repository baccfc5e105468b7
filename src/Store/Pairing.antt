-- ===== src/Store/Pairing.antt =====
-- Pair of internal/store/pairing.go: a token presented for the key that the connection proved.
use nox_app.Base.{ℕ, String, Bool, true}
use nox_app.Db.{Kind, machine, invite_device, other_kind}
use nox_app.Tx.{Tx, pure, fail, ◌>>=◌, token_invalid}
use nox_app.Store.Identity.{Entropy, Identity}
use nox_app.Store.Tokens.{PairToken, read_token, pair_by_machine_link}
use nox_app.Store.Requests.{PairResult, zero_result, request_by_invite}

abbrev pub paired_result : Identity × Bool → PairResult
paired_result (id, joined) = record zero_result { paired = true; identity = id; joined = joined }

-- The switch on the kind of the token.
unfoldable pub pair_kind : Kind → Entropy → PairToken → String → String → ℕ → Tx PairResult
pair_kind machine rnd pt key platform now = do
  answer ← pair_by_machine_link rnd pt key platform now
  pure (paired_result answer)
pair_kind invite_device rnd pt key platform now = request_by_invite rnd pt key platform now
pair_kind (other_kind _) rnd pt key platform now = fail token_invalid

unfoldable pub pair : Entropy → String → String → String → ℕ → Tx PairResult
pair rnd token key platform now = do
  pt ← read_token token
  pair_kind pt.kind rnd pt key platform now
