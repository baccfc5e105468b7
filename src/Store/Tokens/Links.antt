-- ===== src/Store/Tokens/Links.antt =====
-- internal/store/pairing.go: minting machine links and invites.
use nox_app.Base.{
  ℕ, ◌+◌, String, Bool, true, false, not, ◌&&◌, ◌||◌, Option, none, some, List, [], ◌∷◌, ◌++◌, ltb,
  ◌==◌, if◌then◌else◌, same, is_none,
}
use nox_app.Sql.{select, update, count, where_rows}
use nox_app.Db.{Db, Kind, machine, invite_device, TokenRow, DeviceRow}
use nox_app.Tx.{Tx, pure, fail, ◌>>=◌, ◌>>◌, read, write, require, device_unknown, internal}
use nox_app.Store.Identity.{Entropy, is_device, count_devices}

abbrev pub token_ttl_seconds : ℕ
token_ttl_seconds = 600

pub record MachineLink : Type 0 where
  pub token : String
  pub expires_at : ℕ

unfoldable pub live : MachineLink → ℕ → Bool
live l now = ltb now l.expires_at

abbrev pub is_machine : Kind → Bool
is_machine machine = true
is_machine _ = false

abbrev pub is_token : String → TokenRow → Bool
is_token t r = same r.token t

-- `used_at IS NULL`.
abbrev pub unspent : TokenRow → Bool
unspent r = is_none r.used_at

abbrev pub open_machine : TokenRow → Bool
open_machine r = is_machine r.kind && unspent r

-- An UPDATE of pair_tokens, with the rows affected.
unfoldable pub exec_tokens : (TokenRow → Bool) → (TokenRow → TokenRow) → Tx ℕ
exec_tokens p f = do
  n ← read (λ db. count p db.tokens)
  write (λ db. record db { tokens = update p f db.tokens })
  pure n

-- `issuer_key IS NULL OR issuer_key <> ''`.
abbrev pub issuer_fits : Option String → Bool
issuer_fits none = true
issuer_fits (some k) = not (same k "")

-- An INSERT into pair_tokens: refused for a token that is there, and for an empty issuer.
unfoldable pub insert_token : TokenRow → Tx (Unit {0})
insert_token row = do
  known ← read (λ db. count (is_token row.token) db.tokens)
  require (known == 0 && issuer_fits row.issuer_key) internal
  write (λ db. record db { tokens = db.tokens ++ row ∷ [] })

-- newTokenValue.
unfoldable pub new_token_value : Entropy → Tx String
new_token_value rnd = elim rnd.token [ none ↦ fail internal | some t ↦ pure t ]

abbrev pub link_row : String → ℕ → TokenRow
link_row token now = record {
  token = token;
  kind = machine;
  user_id = none;
  issuer_key = none;
  created_at = now;
  expires_at = now + token_ttl_seconds;
  used_at = none;
  used_by = none;
  paired_user_id = none;
  created_person = false;
}

unfoldable pub insert_machine_link : Entropy → ℕ → Tx MachineLink
insert_machine_link rnd now = do
  token ← new_token_value rnd
  _ ← exec_tokens open_machine (λ r. record r { used_at = some now })
  insert_token (link_row token now)
  pure (record { token = token; expires_at = now + token_ttl_seconds })

unfoldable pub issue_machine_link : Entropy → ℕ → Tx MachineLink
issue_machine_link rnd now = insert_machine_link rnd now

pub record PageLink : Type 0 where
  pub devices : ℕ
  pub link : MachineLink
  pub found : Bool

-- ORDER BY created_at DESC, rowid DESC LIMIT 1.
unfoldable pub newest : List TokenRow → Option TokenRow
newest [] = none
newest (r ∷ rs) = elim (newest rs) [
  | none ↦ some r
  | some s ↦ if ltb s.created_at r.created_at then some r else some s
]

abbrev pub page_of : ℕ → Option TokenRow → PageLink
page_of n none = record { devices = n; link = record { token = ""; expires_at = 0 }; found = false }
page_of n (some r) = record {
  devices = n;
  link = record { token = r.token; expires_at = r.expires_at };
  found = true;
}

unfoldable pub page_link_state : Db → PageLink
page_link_state db = page_of (count_devices db) (newest (where_rows open_machine db.tokens))

-- The write transaction of PageMachineLink, which asks again.
unfoldable pub mint_page_link : Entropy → ℕ → Tx PageLink
mint_page_link rnd now = do
  page ← read page_link_state
  if not page.found && page.devices == 0
      then (do
        link ← insert_machine_link rnd now
        pure (record { devices = page.devices; link = link; found = true }))
      else pure page

-- PageMachineLink, where `seen` is the database as the read pool showed it a moment before.
unfoldable pub page_machine_link : Db → Entropy → ℕ → Tx PageLink
page_machine_link seen rnd now =
    let page = page_link_state seen in
    if page.found || ltb 0 page.devices then pure page else mint_page_link rnd now

abbrev pub invite_row : String → DeviceRow → ℕ → TokenRow
invite_row token d now = record {
  token = token;
  kind = invite_device;
  user_id = some d.user_id;
  issuer_key = some d.device_key;
  created_at = now;
  expires_at = now + token_ttl_seconds;
  used_at = none;
  used_by = none;
  paired_user_id = none;
  created_person = false;
}

-- INSERT ... SELECT: no row is written for an issuer that is not there.
abbrev pub insert_invite : String → Option DeviceRow → ℕ → Tx (Unit {0})
insert_invite token none now = fail device_unknown
insert_invite token (some d) now = insert_token (invite_row token d now)

unfoldable pub issue_device_invite : Entropy → String → ℕ → Tx String
issue_device_invite rnd issuer now = do
  token ← new_token_value rnd
  row ← read (λ db. select (is_device issuer) db.devices)
  insert_invite token row now
  pure token
