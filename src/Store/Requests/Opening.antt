-- ===== src/Store/Requests/Opening.antt =====
-- internal/store/requests.go: a request as it is read, how one is opened and presented again, and
-- how one is closed.
use Prim.Native.String.{◌++◌ as text_append}
use nox_app.Base.{
  ℕ, String, Bool, true, false, not, ◌&&◌, ◌||◌, Option, none, some, [], ◌∷◌, ◌++◌, ltb, ◌==◌,
  if◌then◌else◌, same, is_none,
}
use nox_app.Sql.{select, update, count}
use nox_app.Db.{Db, Outcome, allowed, expired, RequestRow}
use nox_app.Tx.{
  Tx, pure, fail, ◌>>=◌, ◌>>◌, read, write, require, token_invalid, token_expired,
  request_not_found, internal,
}
use nox_app.Store.Identity.{Entropy, Identity, zero_identity, device_owner_of}
use nox_app.Store.Tokens.{PairToken, is_token, unspent, exec_tokens, paired_by}

pub record PairRequest : Type 0 where
  pub request_id : String
  pub device_key : String
  pub platform : String
  pub issuer_key : String
  pub expires_at : ℕ
  pub outcome : Option Outcome
  pub token : String

pub record PairResult : Type 0 where
  pub paired : Bool
  pub identity : Identity
  pub request : Option PairRequest
  pub opened : Bool
  pub closed : Bool
  pub joined : Bool

-- PairResult{}.
abbrev pub zero_result : PairResult
zero_result = record {
  paired = false;
  identity = zero_identity;
  request = none;
  opened = false;
  closed = false;
  joined = false;
}

abbrev pub scan_request : RequestRow → PairRequest
scan_request r = record {
  request_id = r.request_id;
  device_key = r.device_key;
  platform = r.platform;
  issuer_key = r.issuer_key;
  expires_at = r.expires_at;
  outcome = r.outcome;
  token = r.token;
}

abbrev pub scanned : Option RequestRow → Option PairRequest
scanned none = none
scanned (some r) = some (scan_request r)

abbrev pub of_token : String → RequestRow → Bool
of_token t r = same r.token t

abbrev pub has_id : String → RequestRow → Bool
has_id id r = same r.request_id id

-- `outcome IS NULL`.
abbrev pub waiting : RequestRow → Bool
waiting r = is_none r.outcome

unfoldable pub request_by_token : String → Db → Option PairRequest
request_by_token t db = scanned (select (of_token t) db.requests)

unfoldable pub request_by_id : String → Db → Option PairRequest
request_by_id id db = scanned (select (has_id id) db.requests)

-- An INSERT into pair_requests: refused for an id or a token that has a row, a token that is not
-- in pair_tokens, and an empty column.
unfoldable pub insert_request : RequestRow → Tx (Unit {0})
insert_request row = do
  ids ← read (λ db. count (has_id row.request_id) db.requests)
  others ← read (λ db. count (of_token row.token) db.requests)
  invites ← read (λ db. count (is_token row.token) db.tokens)
  require (ids == 0 && others == 0 && ltb 0 invites) internal
  require
      (not (same row.request_id "")
        && not (same row.device_key "")
        && not (same row.platform "")
        && not (same row.issuer_key ""))
      internal
  write (λ db. record db { requests = db.requests ++ row ∷ [] })

-- The two statements of closeRequest: the request, and the token it was opened with.
unfoldable pub close_row : String → Outcome → ℕ → Tx ℕ
close_row id outcome now = do
  n ← read (λ db. count (λ r. has_id id r && waiting r) db.requests)
  write λ db. record db {
    requests =
        update (λ r. has_id id r && waiting r)
          (λ r. record r { outcome = some outcome; decided_at = some now }) db.requests;
  }
  pure n

unfoldable pub close_request : PairRequest → Outcome → ℕ → Tx PairRequest
close_request r outcome now = do
  n ← close_row r.request_id outcome now
  require (not (n == 0)) request_not_found
  _ ←
      exec_tokens (λ t. is_token r.token t && unspent t)
        (λ t. record t { used_at = some now; used_by = some r.device_key })
  pure (record r { outcome = some outcome })

abbrev pub replayed : Option Identity → PairRequest → Tx PairResult
replayed none r = fail token_invalid
replayed (some id) r = pure (record zero_result { paired = true; identity = id; request = some r })

-- The switch of repeatRequest.
unfoldable pub repeat_outcome :
    Option Outcome → PairRequest → PairToken → String → ℕ → Tx PairResult
repeat_outcome none r pt key now =
    if ltb now r.expires_at then pure (record zero_result { request = some r }) else (do
      r' ← close_request r expired now
      pure (record zero_result { request = some r'; closed = true }))
repeat_outcome (some allowed) r pt key now = do id ← read (paired_by pt.token key); replayed id r
repeat_outcome (some _) r pt key now = pure (record zero_result { request = some r })

unfoldable pub repeat_request : PairRequest → PairToken → String → ℕ → Tx PairResult
repeat_request r pt key now = do
  require (same r.device_key key) token_invalid
  repeat_outcome r.outcome r pt key now

abbrev pub opened_request : Entropy → PairToken → String → String → PairRequest
opened_request rnd pt key platform = record {
  request_id = text_append "r_" rnd.id;
  device_key = key;
  platform = platform;
  issuer_key = pt.issuer_key;
  expires_at = pt.expires_at;
  outcome = none;
  token = pt.token;
}

abbrev pub request_row : PairRequest → RequestRow
request_row r = record {
  request_id = r.request_id;
  token = r.token;
  device_key = r.device_key;
  platform = r.platform;
  issuer_key = r.issuer_key;
  expires_at = r.expires_at;
  outcome = none;
  decided_at = none;
}

-- requestByInvite once no request is there for the token.
unfoldable pub open_request : Entropy → PairToken → String → String → ℕ → Tx PairResult
open_request rnd pt key platform now = do
  require (not pt.used) token_invalid
  require (ltb now pt.expires_at) token_expired
  issuer_owner ← read (device_owner_of pt.issuer_key)
  require (not (same issuer_owner "")) token_invalid
  bound ← read (device_owner_of key)
  require (same bound "" || same bound pt.user_id) token_invalid
  let r = opened_request rnd pt key platform
  insert_request (request_row r)
  pure (record zero_result { request = some r; opened = true })

abbrev pub open_or_repeat :
    Option PairRequest → Entropy → PairToken → String → String → ℕ → Tx PairResult
open_or_repeat none rnd pt key platform now = open_request rnd pt key platform now
open_or_repeat (some r) rnd pt key platform now = repeat_request r pt key now

unfoldable pub request_by_invite : Entropy → PairToken → String → String → ℕ → Tx PairResult
request_by_invite rnd pt key platform now = do
  found ← read (request_by_token pt.token)
  open_or_repeat found rnd pt key platform now
