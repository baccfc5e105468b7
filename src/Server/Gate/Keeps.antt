-- ===== src/Server/Gate/Keeps.antt =====
-- internal/server/gate.go: the data key through a history of requests.
use nox_app.Base.{
  ◌≡◌, refl, sym, subst, inl, inr, String, Bool, not, Option, none, some, same, is_none, arith,
  Bool-cases, some_inj,
}
use nox_app.Server.PairingLink.{Bytes}
use nox_app.Server.Vault.{
  VaultError, wrong_password, short_password, exists, malformed_file, io_failed, Vaulted, vaulted,
  declined, Params, VaultLib, Draw, Write, not_written, not_flushed, written, Disk, write_file,
  check_password, unseal, seal, open_file, put_sealed, create, change,
}
use nox_app.Server.Vault.Laws.{VaultLaws, IsFitting, IsDataKey, Vaulted-cases, unseal-seal}
use nox_app.Server.Gate.{
  LockState, state_setup, state_locked, state_opening, state_open, GateRequest, req_setup,
  req_unlock, req_open, req_change, req_backup, Surroundings, Gate, Handled, replied, setup_on,
  create_key, setup, unlock, change_password, changed, handle_in, detect_lock, code_done,
  code_state, code_of_change,
}

-- The key file opens with the password, to the data key.
pub record OpensWith (lib : VaultLib) (key : Bytes) (password : String) (disk : Disk) : Type 0 where
  pub bytes : Bytes
  pub on_disk : disk ≡ some bytes
  pub opens : unseal lib bytes password ≡ vaulted key

-- The key file holds the data key, sealed with some password.
abbrev pub IsKeyOf : VaultLib → Bytes → Disk → Type 0
IsKeyOf lib key disk = (password : String) × OpensWith lib key password disk

-- A password as the current one of a change opens no key but the data key, where it opens one.
abbrev pub IsRightful : VaultLib → Bytes → String → Bool → Disk → Type 0
IsRightful lib key current readable disk =
    (k : Bytes) → open_file lib readable disk current ≡ vaulted k → k ≡ key

-- What a change leaves: a key file that holds the data key, and, where it succeeds, under the new
-- password.
record IsChanged (lib : VaultLib) (key : Bytes) (next : String) (r : Disk × Vaulted (Unit {0}))
    : Type 0 where
  file : IsKeyOf lib key r.0
  done : (u : Unit {0}) → r.1 ≡ vaulted u → OpensWith lib key next r.0

module _ (lib : VaultLib) (laws : VaultLaws lib) (key : Bytes) where
  unchanged :
      (next : String) (e : VaultError) (disk : Disk)
      → IsKeyOf lib key disk
      → IsChanged lib key next (disk, declined e)
  unchanged next e disk i = record { file = i; done = λ u h. absurd (ground arith) }

  put_sealed-IsChanged :
      (w : Write) (password : String) (v : Vaulted Bytes) (disk : Disk)
      → ((bytes : Bytes) → v ≡ vaulted bytes → unseal lib bytes password ≡ vaulted key)
      → IsKeyOf lib key disk
      → IsChanged lib key password (put_sealed lib w tt v disk)
  unfolding put_sealed write_file
  put_sealed-IsChanged w password (declined e) disk s i = unchanged password e disk i
  put_sealed-IsChanged not_written password (vaulted bytes) disk s i =
      unchanged password io_failed disk i
  put_sealed-IsChanged not_flushed password (vaulted bytes) disk s i =
      unchanged password io_failed (some bytes)
        (password, record { bytes = bytes; on_disk = refl; opens = s bytes refl })
  put_sealed-IsChanged written password (vaulted bytes) disk s i =
      let new : OpensWith lib key password (some bytes) = record {
        bytes = bytes;
        on_disk = refl;
        opens = s bytes refl;
      } in
      record { file = (password, new); done = λ u h. new }

  change-IsChanged :
      (current next : String) (params : Params) (d : Option Draw) (w : Write) (readable : Bool)
      (disk : Disk)
      → IsDataKey key
      → IsFitting d
      → IsRightful lib key current readable disk
      → IsKeyOf lib key disk
      → IsChanged lib key next (change lib current next params d w readable disk)
  unfolding change
  change-IsChanged current next params d w readable disk sized f mine i =
      elim (Bool-cases (check_password lib next)) [
        | inr n ↦ rw (change, n) (unchanged next short_password disk i)
        | inl y ↦ elim (Vaulted-cases (open_file lib readable disk current)) [
          | inr (e, o) ↦ rw (change, y, o) (unchanged next e disk i)
          | inl (k, o) ↦
              rw (change, y, o, mine k o)
                (put_sealed-IsChanged w next (seal lib key next params d) disk
                  (λ bytes h. unseal-seal lib laws key next params d bytes sized f h) i)
        ]
      ]

-- The password that a request asks for in place of the current one.
abbrev pub new_password : GateRequest → Option String
new_password (req_change current password) = some password
new_password _ = none

-- A request that is handled with the data key kept: the key file still holds it, and where a change
-- is answered as done, the new password opens it.
pub record IsKept (lib : VaultLib) (key : Bytes) (r : GateRequest) (h : Handled) : Type 0 where
  pub file_kept : IsKeyOf lib key h.gate.key_file
  pub renewed :
      (p : String)
      → new_password r ≡ some p
      → h.answer ≡ some code_done
      → OpensWith lib key p h.gate.key_file

-- The current password of a request, if it is a change, is the data key's.
abbrev pub AsksRightly : VaultLib → Bytes → GateRequest → Surroundings → Gate → Type 0
AsksRightly lib key (req_change current password) w g =
    IsRightful lib key current w.readable g.key_file
AsksRightly lib key _ w g = Unit

module _ (lib : VaultLib) (laws : VaultLaws lib) (key : Bytes) where
  -- A request that is no change, and one that the state does not take.
  no_change :
      (r : GateRequest) (h : Handled)
      → new_password r ≡ none
      → IsKeyOf lib key h.gate.key_file
      → IsKept lib key r h
  no_change r h n i = record { file_kept = i; renewed = λ p e d. absurd (ground arith) }

  refused :
      (r : GateRequest) (g : Gate)
      → IsKeyOf lib key g.key_file
      → IsKept lib key r (replied g code_state)
  refused r g i = record { file_kept = i; renewed = λ p e d. absurd (ground arith) }

  -- A key file that is there is never replaced by a new one.
  create_key-IsKeyOf :
      (g : Gate) (password : String) (w : Surroundings)
      → IsKeyOf lib key g.key_file
      → IsKeyOf lib key (create_key lib g password w).gate.key_file
  unfolding create_key create
  create_key-IsKeyOf g password w (p, i) =
      let kept : (create_key lib g password w).gate.key_file ≡ g.key_file =
        ground (arith, i.on_disk) in
      subst (IsKeyOf lib key) (sym kept) (p, i)

  setup_on-IsKeyOf :
      (o : Option LockState) (g : Gate) (password : String) (w : Surroundings)
      → IsKeyOf lib key g.key_file
      → IsKeyOf lib key (setup_on lib o g password w).gate.key_file
  unfolding setup_on
  setup_on-IsKeyOf none g password w i = i
  setup_on-IsKeyOf (some state_setup) g password w i = create_key-IsKeyOf g password w i
  setup_on-IsKeyOf (some state_locked) g password w i = i
  setup_on-IsKeyOf (some state_opening) g password w i = i
  setup_on-IsKeyOf (some state_open) g password w i = i

  setup-IsKeyOf :
      (g : Gate) (password repeat : String) (w : Surroundings)
      → IsKeyOf lib key g.key_file
      → IsKeyOf lib key (setup lib g password repeat w).gate.key_file
  unfolding setup
  setup-IsKeyOf g password repeat w i = elim (Bool-cases (check_password lib password)) [
    | inr n ↦ rw (setup, n) i
    | inl y ↦ elim (Bool-cases (same repeat password)) [
      | inr n ↦ rw (setup, y, n) i
      | inl y' ↦
          rw (setup, y, y')
            (setup_on-IsKeyOf (detect_lock w.looks g.has_db (not (is_none g.key_file))) g password w
              i)
    ]
  ]

  unlock-IsKeyOf :
      (g : Gate) (password : String) (w : Surroundings)
      → IsKeyOf lib key g.key_file
      → IsKeyOf lib key (unlock lib g password w).gate.key_file
  unfolding unlock
  unlock-IsKeyOf g password w i =
      elim (Vaulted-cases (open_file lib w.readable g.key_file password)) [
        | inr (e, o) ↦ rw (unlock, o) i
        | inl (k, o) ↦ rw (unlock, o) i
      ]

  not_done : (e : VaultError) → ¬ (some (code_of_change e) ≡ some code_done)
  not_done wrong_password h = cc
  not_done short_password h = cc
  not_done exists h = cc
  not_done malformed_file h = cc
  not_done io_failed h = cc

  changed-IsKept :
      (g : Gate) (current password : String) (r : Disk × Vaulted (Unit {0}))
      → IsChanged lib key password r
      → IsKept lib key (req_change current password) (changed lib g r)
  changed-IsKept g current password (disk, declined e) c = record {
    file_kept = c.file;
    renewed = λ p h d. absurd (not_done e d);
  }
  changed-IsKept g current password (disk, vaulted u) c = record {
    file_kept = c.file;
    renewed =
        λ p h d. subst (λ z. OpensWith lib key z disk) (some_inj password p h) (c.done u refl);
  }

  pub handle_in-IsKept :
      (s : LockState) (r : GateRequest) (g : Gate) (w : Surroundings)
      → IsDataKey key
      → IsFitting w.draw
      → AsksRightly lib key r w g
      → IsKeyOf lib key g.key_file
      → IsKept lib key r (handle_in lib s r g w)
  unfolding handle_in change_password
  handle_in-IsKept state_setup (req_setup p q) g w z f m i =
      no_change _ _ refl (setup-IsKeyOf g p q w i)
  handle_in-IsKept state_setup (req_open p q) g w z f m i =
      no_change _ _ refl (setup-IsKeyOf g p q w i)
  handle_in-IsKept state_locked (req_unlock p) g w z f m i =
      no_change _ _ refl (unlock-IsKeyOf g p w i)
  handle_in-IsKept state_locked (req_open p q) g w z f m i =
      no_change _ _ refl (unlock-IsKeyOf g p w i)
  handle_in-IsKept state_open (req_change c p) g w z f m i =
      changed-IsKept g c p (change lib c p g.kdf w.draw w.write w.readable g.key_file)
        (change-IsChanged lib laws key c p g.kdf w.draw w.write w.readable g.key_file z f m i)
  handle_in-IsKept state_open req_backup g w z f m i = no_change _ _ refl i
  handle_in-IsKept state_setup (req_unlock p) g w z f m i = refused _ g i
  handle_in-IsKept state_setup (req_change c p) g w z f m i = refused _ g i
  handle_in-IsKept state_setup req_backup g w z f m i = refused _ g i
  handle_in-IsKept state_locked (req_setup p q) g w z f m i = refused _ g i
  handle_in-IsKept state_locked (req_change c p) g w z f m i = refused _ g i
  handle_in-IsKept state_locked req_backup g w z f m i = refused _ g i
  handle_in-IsKept state_open (req_setup p q) g w z f m i = refused _ g i
  handle_in-IsKept state_open (req_unlock p) g w z f m i = refused _ g i
  handle_in-IsKept state_open (req_open p q) g w z f m i = refused _ g i
  handle_in-IsKept state_opening (req_setup p q) g w z f m i = refused _ g i
  handle_in-IsKept state_opening (req_unlock p) g w z f m i = refused _ g i
  handle_in-IsKept state_opening (req_open p q) g w z f m i = refused _ g i
  handle_in-IsKept state_opening (req_change c p) g w z f m i = refused _ g i
  handle_in-IsKept state_opening req_backup g w z f m i = refused _ g i
