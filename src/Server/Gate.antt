-- ===== src/Server/Gate.antt =====
-- internal/server/gate.go: the lock of a starting server and its key file. The requests are served one
-- at a time; what the disk and the random number generator do meanwhile is an argument of each.
pub mod Keeps
pub mod History
use nox_app.Base.{
  ℕ, String, Bool, true, false, not, ◌&&◌, ◌||◌, Option, none, some, List, [], ◌∷◌, if◌then◌else◌,
  same, is_none,
}
use nox_app.Server.PairingLink.{Bytes}
use nox_app.Server.Vault.{
  VaultError, wrong_password, short_password, exists, malformed_file, io_failed, Vaulted, vaulted,
  declined, Params, VaultLib, Draw, Write, Disk, check_password, open_file, create, change,
}

pub data LockState : Type 0 where
  state_setup : LockState
  state_locked : LockState
  state_opening : LockState
  state_open : LockState

-- The codes of the answers; no code is success.
pub data Code : Type 0 where
  code_done : Code
  code_wrong : Code
  code_short : Code
  code_mismatch : Code
  code_state : Code
  code_path : Code
  code_internal : Code

pub data GateRequest : Type 0 where
  req_setup : (password repeat : String) → GateRequest
  req_unlock : (password : String) → GateRequest
  req_open : (password repeat : String) → GateRequest
  req_change : (current password : String) → GateRequest
  req_backup : GateRequest

pub data BackupResult : Type 0 where
  backed_up : BackupResult
  bad_path : BackupResult
  backup_failed : BackupResult

-- What a request meets: whether the paths can be looked at, the draws of a new key and of a seal,
-- how a write ends, whether the key file can be read, and what a backup comes to.
pub record Surroundings : Type 0 where
  pub looks : Bool
  pub key : Option Bytes
  pub draw : Option Draw
  pub write : Write
  pub readable : Bool
  pub backup : BackupResult

-- The gate and the two files it looks at.
pub record Gate : Type 0 where
  pub state : LockState
  pub has_db : Bool
  pub key_file : Disk
  pub kdf : Params

-- What comes of a request: the gate after it, the answer, if it is given here, and the data key, if
-- the request opened it.
pub record Handled : Type 0 where
  pub gate : Gate
  pub answer : Option Code
  pub key : Option Bytes

abbrev pub replied : Gate → Code → Handled
replied g code = record { gate = g; answer = some code; key = none }

-- detectLock: none is a start that must not go on.
unfoldable pub detect_lock : Bool → Bool → Bool → Option LockState
detect_lock looks has_db has_key =
    if not looks
    then none
    else if not has_db && not has_key
    then some state_setup
    else if has_db && has_key
    then some state_locked
    else none

abbrev pub opening_with : Gate → Disk → Bytes → Handled
opening_with g disk key = record {
  gate = record g { state = state_opening; key_file = disk };
  answer = none;
  key = some key;
}

abbrev pub code_of_create : VaultError → Code
code_of_create exists = code_state
code_of_create wrong_password = code_internal
code_of_create short_password = code_internal
code_of_create malformed_file = code_internal
code_of_create io_failed = code_internal

abbrev pub code_of_open : VaultError → Code
code_of_open wrong_password = code_wrong
code_of_open short_password = code_internal
code_of_open exists = code_internal
code_of_open malformed_file = code_internal
code_of_open io_failed = code_internal

abbrev pub code_of_change : VaultError → Code
code_of_change short_password = code_short
code_of_change wrong_password = code_wrong
code_of_change exists = code_internal
code_of_change malformed_file = code_internal
code_of_change io_failed = code_internal

abbrev pub code_of_backup : BackupResult → Code
code_of_backup backed_up = code_done
code_of_backup bad_path = code_path
code_of_backup backup_failed = code_internal

module _ (lib : VaultLib) where
  abbrev pub created : Gate → Disk × Vaulted Bytes → Handled
  created g (disk, declined e) = replied (record g { key_file = disk }) (code_of_create e)
  created g (disk, vaulted key) = opening_with g disk key

  unfoldable pub create_key : Gate → String → Surroundings → Handled
  create_key g password w = created g (create lib password g.kdf w.key w.draw w.write g.key_file)

  -- setup, where the disk still holds nothing.
  unfoldable pub setup_on : Option LockState → Gate → String → Surroundings → Handled
  unfolding create_key
  setup_on none g password w = replied g code_state
  setup_on (some state_setup) g password w = create_key g password w
  setup_on (some other) g password w = replied (record g { state = other }) code_state

  unfoldable pub setup : Gate → String → String → Surroundings → Handled
  unfolding setup_on detect_lock
  setup g password repeat w =
      let made = setup_on (detect_lock w.looks g.has_db (not (is_none g.key_file))) g password w in
      if not (check_password lib password)
      then replied g code_short
      else if not (same repeat password)
      then replied g code_mismatch
      else made

  unfoldable pub unlock : Gate → String → Surroundings → Handled
  unlock g password w = elim (open_file lib w.readable g.key_file password) [
    | declined e ↦ replied g (code_of_open e)
    | vaulted key ↦ opening_with g g.key_file key
  ]

  abbrev pub changed : Gate → Disk × Vaulted (Unit {0}) → Handled
  changed g (disk, declined e) = replied (record g { key_file = disk }) (code_of_change e)
  changed g (disk, vaulted _) = replied (record g { key_file = disk }) code_done

  unfoldable pub change_password : Gate → String → String → Surroundings → Handled
  change_password g current password w =
      changed g (change lib current password g.kdf w.draw w.write w.readable g.key_file)

  -- handle, by the state and the request.
  unfoldable pub handle_in : LockState → GateRequest → Gate → Surroundings → Handled
  unfolding setup unlock change_password
  handle_in state_setup (req_setup password repeat) g w = setup g password repeat w
  handle_in state_setup (req_open password repeat) g w = setup g password repeat w
  handle_in state_locked (req_unlock password) g w = unlock g password w
  handle_in state_locked (req_open password repeat) g w = unlock g password w
  handle_in state_open (req_change current password) g w = change_password g current password w
  handle_in state_open req_backup g w = replied g (code_of_backup w.backup)
  handle_in state request g w = replied g code_state

  unfoldable pub handle : GateRequest → Gate → Surroundings → Handled
  unfolding handle_in
  handle request g w = handle_in g.state request g w

-- opened: the data is open, and so there is a database.
unfoldable pub opened : Gate → Gate
opened g = record g { state = state_open; has_db = true }

-- name, and the status of answerControl; no answer is a server that is stopping.
abbrev pub name : LockState → String
name state_setup = "setup"
name state_open = "open"
name state_locked = "locked"
name state_opening = "locked"

unfoldable pub answer_control : Option Code → ℕ
answer_control none = 503
answer_control (some code_done) = 200
answer_control (some code_wrong) = 403
answer_control (some code_short) = 400
answer_control (some code_mismatch) = 400
answer_control (some code_path) = 400
answer_control (some code_state) = 409
answer_control (some code_internal) = 500
