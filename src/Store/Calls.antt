-- ===== src/Store/Calls.antt =====
-- The methods of the store by which a server that runs changes who may join the machine, as calls,
-- and histories of them. What a start does before it, ServerKey's rekey among it, is in Starts.
pub mod Closings
pub mod Walk
pub mod Removal
pub mod Quiet
use nox_app.Base.{ℕ, String, Bool, List, [], ◌∷◌}
use nox_app.Db.{Db}
use nox_app.Tx.{run}
use nox_app.Store.Identity.{Entropy, resolve_identity, set_label}
use nox_app.Store.Tokens.{issue_machine_link, page_machine_link, issue_device_invite}
use nox_app.Store.Requests.{decide_pair_request, cancel_pair_request, expire_pair_requests}
use nox_app.Store.Pairing.{pair}
use nox_app.Store.Devices.{revoke_device_by}

-- `seen` is what the read pool showed to a method that looks there first.
pub data Call : Type 0 where
  resolves : (key : String) (now : ℕ) → Call
  names : (id label : String) → Call
  issues : (rnd : Entropy) (now : ℕ) → Call
  pages : (seen : Db) (rnd : Entropy) (now : ℕ) → Call
  invites : (rnd : Entropy) (issuer : String) (now : ℕ) → Call
  pairs : (rnd : Entropy) (token key platform : String) (now : ℕ) → Call
  decides : (id issuer : String) (allow : Bool) (now : ℕ) → Call
  cancels : (token key : String) (now : ℕ) → Call
  expires : (seen : Db) (now : ℕ) → Call
  revokes : (caller key : String) (now : ℕ) → Call

-- The database after a call, refused or not.
unfoldable pub step : Db → Call → Db
step db (resolves key now) = (run (resolve_identity key now) db).0
step db (names id label) = (run (set_label id label) db).0
step db (issues rnd now) = (run (issue_machine_link rnd now) db).0
step db (pages seen rnd now) = (run (page_machine_link seen rnd now) db).0
step db (invites rnd issuer now) = (run (issue_device_invite rnd issuer now) db).0
step db (pairs rnd token key platform now) = (run (pair rnd token key platform now) db).0
step db (decides id issuer allow now) = (run (decide_pair_request id issuer allow now) db).0
step db (cancels token key now) = (run (cancel_pair_request token key now) db).0
step db (expires seen now) = (run (expire_pair_requests seen now) db).0
step db (revokes caller key now) = (run (revoke_device_by caller key now) db).0

unfoldable pub history : Db → List Call → Db
history db [] = db
history db (c ∷ cs) = history (step db c) cs
