-- ===== src/Store/Starts.antt =====
-- internal/store/serverkey.go between the other methods: what a server that starts asks of its
-- store, EnsureServerIdentity, EnsureJournal and ServerKey, and histories of calls and starts.
pub mod Kept
pub mod Final
pub mod Machine
use nox_app.Base.{Bool, false, ◌||◌, List, [], ◌∷◌}
use nox_app.Db.{Db}
use nox_app.Tx.{Result, ok, err, run}
use nox_app.Store.Identity.{Entropy, ensure_journal}
use nox_app.Store.Calls.{Call, step}
use nox_app.Store.ServerKey.{Key, Codec, KeySource, ensure_server_identity, server_key}

-- `seen` is what the read pool showed to ServerKey.
pub data Event : Type 0 where
  called : Call → Event
  ensures : (codec : Codec) (keys : KeySource) → Event
  journals : (rnd : Entropy) → Event
  reads_key : (codec : Codec) (keys : KeySource) (seen : Db) → Event

-- The database after an event, refused or not.
unfoldable pub happen : Db → Event → Db
happen db (called c) = step db c
happen db (ensures codec keys) = (run (ensure_server_identity codec keys) db).0
happen db (journals rnd) = (run (ensure_journal rnd) db).0
happen db (reads_key codec keys seen) = (run (server_key codec keys seen) db).0

unfoldable pub life : Db → List Event → Db
life db [] = db
life db (e ∷ es) = life (happen db e) es

-- ServerKey answers that it let the devices go.
unfoldable pub replaced : Result ((Key × Bool) × Db) → Bool
replaced (ok (answer, db)) = answer.1
replaced (err e) = false

abbrev pub replaces : Db → Event → Bool
replaces db (called c) = false
replaces db (ensures codec keys) = false
replaces db (journals rnd) = false
replaces db (reads_key codec keys seen) = replaced (server_key codec keys seen db)

-- An event of the history replaces the public key.
unfoldable pub is_rekeyed : Db → List Event → Bool
is_rekeyed db [] = false
is_rekeyed db (e ∷ es) = replaces db e || is_rekeyed (happen db e) es
