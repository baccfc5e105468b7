-- ===== src/Server/Gate/History.antt =====
-- internal/server/gate.go: the gate through the life of a process.
use nox_app.Base.{String, ◌≡◌, some, List, [], ◌∷◌, All}
use nox_app.Server.PairingLink.{Bytes}
use nox_app.Server.Vault.{VaultLib}
use nox_app.Server.Vault.Laws.{VaultLaws, IsFitting, IsDataKey}
use nox_app.Server.Gate.{GateRequest, Surroundings, Gate, handle, opened, code_done}
use nox_app.Server.Gate.Keeps.{IsKeyOf, OpensWith, AsksRightly, new_password, handle_in-IsKept}

-- What the gate meets, in order: a request, or the data that is open at last.
pub data GateEvent : Type 0 where
  asked : GateRequest → Surroundings → GateEvent
  data_opened : GateEvent

module _ (lib : VaultLib) where
  unfoldable pub step : GateEvent → Gate → Gate
  unfolding handle opened
  step (asked r w) g = (handle lib r g w).gate
  step data_opened g = opened g

  unfoldable pub run : List GateEvent → Gate → Gate
  unfolding step
  run [] g = g
  run (e ∷ more) g = run more (step e g)

  -- After each change of a history that is answered as done, the new password opens the key file to
  -- `key`.
  pub Renews : Bytes → List GateEvent → Gate → Type 0
  Renews key [] g = Unit
  Renews key (asked r w ∷ more) g =
      ((p : String)
        → new_password r ≡ some p
        → (handle lib r g w).answer ≡ some code_done
        → OpensWith lib key p (step (asked r w) g).key_file)
      × Renews key more (step (asked r w) g)
  Renews key (data_opened ∷ more) g = Renews key more (step data_opened g)

  -- No change of a history names, as the current password, one that opens the key file to another
  -- key than `key`.
  unfoldable pub AreRightly : Bytes → List GateEvent → Gate → Type 0
  AreRightly key [] g = Unit
  AreRightly key (asked r w ∷ more) g =
      AsksRightly lib key r w g × AreRightly key more (step (asked r w) g)
  AreRightly key (data_opened ∷ more) g = AreRightly key more (step data_opened g)

-- The draws of a history are of the sizes asked for.
abbrev pub FitsEvent : GateEvent → Type 0
FitsEvent (asked r w) = IsFitting w.draw
FitsEvent data_opened = Unit

module _ (lib : VaultLib) (laws : VaultLaws lib) (key : Bytes) where
  -- The data key is kept. Once the key file holds a key of 32 bytes, then through every history of
  -- requests - first passwords, unlocks, changes and backups, however their writes and reads end -
  -- the key file holds that same key, sealed with some password, and after each change that is
  -- answered as done the new password opens the file to it. It holds where the libraries keep to
  -- `VaultLaws`, the draws have the sizes asked for, and no change names as the current password
  -- one that opens the file to another key; a change whose current password opens nothing is among
  -- the requests.
  pub run-IsKeyOf :
      (events : List GateEvent) (g : Gate)
      → IsDataKey key
      → All FitsEvent events
      → AreRightly lib key events g
      → IsKeyOf lib key g.key_file
      → IsKeyOf lib key (run lib events g).key_file × Renews lib key events g
  unfolding run step handle opened Renews AreRightly
  run-IsKeyOf [] g z f m i = (i, tt)
  run-IsKeyOf (asked r w ∷ more) g z f m i =
      let kept = handle_in-IsKept lib laws key g.state r g w z f.0 m.0 i in
      let (later, out) = run-IsKeyOf more (step lib (asked r w) g) z f.1 m.1 kept.file_kept in
      (later, (kept.renewed, out))
  run-IsKeyOf (data_opened ∷ more) g z f m i = run-IsKeyOf more (step lib data_opened g) z f.1 m i
