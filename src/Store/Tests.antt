-- ===== src/Store/Tests.antt =====
-- Concrete stores, on which the runs of the modules below stand.
mod Devices
mod Histories
mod Pairs
mod Machine
mod Starts
mod Chat
use nox_app.Base.{
  ℕ, ◌<◌, String, ◌≡◌, ◌≢◌, refl, subst, true, false, Option, none, some, List, [], ◌∷◌, key_dec,
  ne_of_same, arith, All,
}
use nox_app.Db.{Db, UserRow, DeviceRow, RequestRow}
use nox_app.Tx.{Tx, run}
use nox_app.Sql.{count}
use nox_app.Store.Identity.{Entropy}
use nox_app.Store.Requests
use nox_app.Store.Calls.{Call, resolves, issues, pairs, decides, expires, revokes}
use nox_app.Store.Backing.{IsPaired, IsBacked}
use nox_app.Store.Tokens.{invite_row, link_row}

-- An empty store.
abbrev pub fresh : Db
fresh = record {
  users = [];
  devices = [];
  tokens = [];
  requests = [];
  chats = [];
  files = [];
  messages = [];
  events = [];
  last_seq = 0;
  journal = none;
  server_identity = none;
}

-- What the random sources yield.
abbrev pub draw : String → Entropy
draw s = record { token = some s; id = s; below = λ n. 42 }

abbrev pub person : UserRow
person = record { user_id = "u_1"; label = "User0042"; created_at = 1 }

abbrev pub phone : DeviceRow
phone = record {
  device_key = "phone";
  user_id = "u_1";
  platform = "android";
  created_at = 1;
  last_seen_at = 1;
}

abbrev pub ask : RequestRow
ask = record {
  request_id = "pr_1";
  token = "invite";
  device_key = "tablet";
  platform = "ios";
  issuer_key = "phone";
  expires_at = 700;
  outcome = none;
  decided_at = none;
}

-- A store with one person and their phone, which has an invite out and a request to answer.
abbrev pub home : Db
home = record fresh {
  users = person ∷ [];
  devices = phone ∷ [];
  tokens = invite_row "invite" phone 100 ∷ link_row "link" 100 ∷ [];
  requests = ask ∷ [];
}

-- The store after a transaction.
abbrev pub after : {A : Type 0} → Tx A → Db → Db
after m db = (run m db).0

some_inj_key : {k : String} → some "phone" ≡ some k → "phone" ≡ k
some_inj_key {k} e = cc

-- No device of the store is without a person.
pub home_named : All (λ d. d.user_id ≢ "") home.devices
unfolding key_dec
home_named = (ne_of_same "u_1" "" refl, tt)

pub home-IsBacked : IsBacked home
unfolding count key_dec
home-IsBacked = record {
  invites = (
    (λ h k e. subst (IsPaired home.devices) (some_inj_key e) (omega arith)),
    ((λ h k e. cc), tt),
  );
  requests = ((λ h. omega arith), tt);
}

-- The calls that the histories run.
abbrev pub some_calls : List Call
some_calls =
    resolves "phone" 150
    ∷ pairs (draw "a") "link" "laptop" "linux" 160
    ∷ decides "pr_1" "phone" true 170
    ∷ issues (draw "b") 180
    ∷ expires home 900
    ∷ revokes "phone" "laptop" 950
    ∷ []

-- The store after the phone lets the tablet in.
abbrev pub allowed_home : Db
allowed_home = after (Requests.decide_pair_request "pr_1" "phone" true 200) home

abbrev pub denied_home : Db
denied_home = after (Requests.decide_pair_request "pr_1" "phone" false 200) home
