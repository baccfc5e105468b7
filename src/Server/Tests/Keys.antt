-- ===== src/Server/Tests/Keys.antt =====
-- Tests of internal/vault and internal/server/gate.go, over a small stand-in for the libraries: a
-- seal is the text and a tag of the key, and a key is the right password's or not.
use nox_app.Base.{
  ℕ, zero, suc, ◌-◌, ◌≡◌, refl, ap, sym, ◌∙◌, true, false, Option, none, some, List, [], ◌∷◌, ◌++◌,
  length, length-append, take, drop, ltb, if◌then◌else◌, arith, key_dec, same, ◌%◌, All, ◌<◌,
}
use nox_app.Server.PairingLink.{Bytes}
use nox_app.Server.PairingLink.Laws.{take-append, drop-append, IsByte}
use nox_app.Server.PairingLink.Issue.{same_bytes}
use nox_app.Server.ConnAuth.Bodies.{same_bytes_refl}
use nox_app.Server.Vault.{
  KeyFile, VaultLib, Params, Draw, not_flushed, kdf_name, file_of, seal, unseal, vaulted, open_file,
  read_file, parse, change, check_password,
}
use nox_app.Server.Vault.Laws.{VaultLaws, IsDataKey, IsFitting, vaulted_inj, unseal-seal}
use nox_app.Server.Gate.{
  Gate, state_locked, req_open, req_change, req_backup, Surroundings, backed_up, handle, handle_in,
  unlock,
}
use nox_app.Server.Gate.Keeps.{IsKeyOf, IsRightful}
use nox_app.Server.Gate.History.{
  GateEvent, asked, data_opened, run, step, AreRightly, Renews, run-IsKeyOf,
}

abbrev fill : ℕ → ℕ → Bytes
fill zero b = []
fill (suc n) b = b ∷ fill n b

-- The tag of a key, from its first byte.
abbrev tag : Bytes → Bytes
tag [] = fill 16 7
tag (b ∷ _) = b % 256 ∷ fill 15 7

abbrev opened_text : Bytes → Bytes → Option Bytes
opened_text k c =
    if ltb (length c) 16
    then none
    else if same_bytes (drop (length c - 16) c) (tag k)
    then some (take (length c - 16) c)
    else none

abbrev file_bytes : KeyFile → Bytes
file_bytes kf =
    kf.version
    ∷ kf.costs.memory_kib
    ∷ kf.costs.iterations
    ∷ kf.costs.parallelism
    ∷ length kf.salt
    ∷ length kf.nonce
    ∷ (kf.salt ++ (kf.nonce ++ kf.sealed))

abbrev bytes_file : Bytes → Option KeyFile
bytes_file (v ∷ m ∷ i ∷ p ∷ s ∷ n ∷ rest) = some (record {
  version = v;
  kdf = kdf_name;
  costs = record { memory_kib = m; iterations = i; parallelism = p };
  salt = take s rest;
  nonce = take n (drop s rest);
  sealed = drop n (drop s rest);
})
bytes_file _ = none

abbrev small_vault : VaultLib
small_vault = record {
  rune_count = λ p. 12;
  is_blank = λ p. false;
  derive = λ p salt params. if same p "correct horse" then 1 ∷ [] else 2 ∷ [];
  aead_seal = λ k n text. text ++ tag k;
  aead_open = λ k n c. opened_text k c;
  put_file = file_bytes;
  get_file = bytes_file;
}

fill_bytes : (n b : ℕ) → b < 256 → All IsByte (fill n b)
fill_bytes zero b h = tt
fill_bytes (suc n) b h = (h, fill_bytes n b h)

append_bytes : (b c : Bytes) → All IsByte b → All IsByte c → All IsByte (b ++ c)
append_bytes [] c h k = k
append_bytes (x ∷ b) c h k = (h.0, append_bytes b c h.1 k)

length-tag : (k : Bytes) → length (tag k) ≡ 16
length-tag [] = refl
length-tag (b ∷ k) = refl

tag_bytes : (k : Bytes) → All IsByte (tag k)
tag_bytes [] = fill_bytes 16 7 (omega arith)
tag_bytes (b ∷ k) = (omega arith, fill_bytes 15 7 (omega arith))

opened_sealed : (k text : Bytes) → opened_text k (text ++ tag k) ≡ some text
opened_sealed k text =
    let size : length (text ++ tag k) - 16 ≡ length text =
      omega (arith, length-append text (tag k), length-tag k) in
    let long : ltb (length (text ++ tag k)) 16 ≡ false =
      ground (arith, length-append text (tag k), length-tag k) in
    rw (long, size, drop-append text (tag k), same_bytes_refl (tag k), take-append text (tag k))
      refl

file_read : (kf : KeyFile) → kf.kdf ≡ kdf_name → bytes_file (file_bytes kf) ≡ some kf
file_read kf h =
    rw
      (
        take-append kf.salt (kf.nonce ++ kf.sealed),
        drop-append kf.salt (kf.nonce ++ kf.sealed),
        take-append kf.nonce kf.sealed,
        drop-append kf.nonce kf.sealed,
      )
      (ap (λ name. some (record kf { kdf = name })) (sym h))

small_vault-VaultLaws : VaultLaws small_vault
small_vault-VaultLaws = record {
  opens = λ p salt n text c b h z. opened_sealed (small_vault.derive p salt c) text;
  sealed_length = λ p salt n text c b h. omega (
    arith,
    length-append text (tag (small_vault.derive p salt c)),
    length-tag (small_vault.derive p salt c),
  );
  sealed_bytes = λ p salt n text c b h z.
      append_bytes text (tag (small_vault.derive p salt c)) z
        (tag_bytes (small_vault.derive p salt c));
  reads_file = λ kf w. file_read kf w.named;
  file_length = λ kf w.
      omega
        (arith, length-append kf.salt (kf.nonce ++ kf.sealed), length-append kf.nonce kf.sealed);
}

abbrev costs : Params
costs = record { memory_kib = 1024; iterations = 3; parallelism = 4 }

abbrev a_draw : Draw
a_draw = record { salt = fill 16 3; nonce = fill 24 5 }

abbrev house_key : Bytes
house_key = fill 32 9

abbrev house_file : Bytes
house_file = file_bytes (file_of small_vault house_key "correct horse" costs a_draw)

abbrev house : Gate
house = record { state = state_locked; has_db = true; key_file = some house_file; kdf = costs }

abbrev a_world : Surroundings
a_world = record {
  looks = true;
  key = some (fill 32 1);
  draw = some a_draw;
  write = not_flushed;
  readable = true;
  backup = backed_up;
}

-- A start: the password, a change with a wrong one, a change whose write is not flushed, and a
-- backup.
abbrev a_day : List GateEvent
a_day =
    asked (req_open "correct horse" "") a_world
    ∷ data_opened
    ∷ asked (req_change "wrong horse" "battery staple") a_world
    ∷ asked (req_change "correct horse" "battery staple") a_world
    ∷ asked req_backup a_world
    ∷ []

house_key_fits : IsDataKey house_key
house_key_fits = (refl, fill_bytes 32 9 (omega arith))

a_draw_fits : IsFitting (some a_draw)
a_draw_fits = ((refl, fill_bytes 16 3 (omega arith)), (refl, fill_bytes 24 5 (omega arith)))

house_opens : unseal small_vault house_file "correct horse" ≡ vaulted house_key
unfolding seal
house_opens =
    unseal-seal small_vault small_vault-VaultLaws house_key "correct horse" costs (some a_draw)
      house_file house_key_fits a_draw_fits refl

house_holds : IsKeyOf small_vault house_key (some house_file)
house_holds = ("correct horse", record { bytes = house_file; on_disk = refl; opens = house_opens })

-- The day's change names the password of the house.
day_is_right : IsRightful small_vault house_key "correct horse" true (some house_file)
unfolding open_file read_file key_dec
day_is_right k h = sym (vaulted_inj house_key k (sym house_opens ∙ h))

a_day_rightly : AreRightly small_vault house_key a_day house
unfolding AreRightly step handle handle_in unlock open_file read_file unseal parse key_dec
    same_bytes change check_password
a_day_rightly = (tt, ((λ k h. absurd (ground arith)), (day_is_right, (tt, tt))))

run-IsKeyOf_example :
    IsKeyOf small_vault house_key (run small_vault a_day house).key_file
    × Renews small_vault house_key a_day house
run-IsKeyOf_example =
    run-IsKeyOf small_vault small_vault-VaultLaws house_key a_day house house_key_fits
      (a_draw_fits, (tt, (a_draw_fits, (a_draw_fits, (a_draw_fits, tt))))) a_day_rightly house_holds
