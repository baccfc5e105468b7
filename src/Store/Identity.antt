-- ===== src/Store/Identity.antt =====
-- internal/store/identity.go, with countPeople, countDevices and EnsureJournal: who a connection
-- speaks as, and the statements on users, devices and journal that pairing shares.
-- What crypto/rand yields is the argument `Entropy`.
use Prim.Native.String.{◌++◌ as text_append}
use nox_app.Base.{
  ℕ, zero, suc, ◌+◌, ◌/◌, ◌%◌, String, Bool, false, not, ◌||◌, Option, none, some, [], ◌∷◌, ◌++◌,
  ltb, ◌==◌, if◌then◌else◌, same, length,
}
use nox_app.Sql.{select, update, count}
use nox_app.Db.{Db, UserRow, DeviceRow}
use nox_app.Tx.{Tx, pure, fail, ◌>>=◌, ◌>>◌, read, write, require, device_unknown, internal}

-- The random values of one call: the base64 text of newTokenValue, or none when the generator
-- fails; the hex text of randomID; randomBelow of each attempt at a name.
pub record Entropy : Type 0 where
  pub token : Option String
  pub id : String
  pub below : ℕ → ℕ

pub record Identity : Type 0 where
  pub user_id : String
  pub label : String
  pub created : Bool

-- Identity{}.
abbrev pub zero_identity : Identity
zero_identity = record { user_id = ""; label = ""; created = false }

abbrev pub is_device : String → DeviceRow → Bool
is_device key r = same r.device_key key

abbrev pub is_user : String → UserRow → Bool
is_user id r = same r.user_id id

abbrev pub identity_of : Option UserRow → Option Identity
identity_of none = none
identity_of (some u) = some (record { user_id = u.user_id; label = u.label; created = false })

-- The join of a device row with the person it is bound to.
abbrev pub joined_person : Option DeviceRow → Db → Option Identity
joined_person none db = none
joined_person (some d) db = identity_of (select (is_user d.user_id) db.users)

unfoldable pub lookup_by_device : String → Db → Option Identity
lookup_by_device key db = joined_person (select (is_device key) db.devices) db

-- deviceOwnerOf: empty for a key that is unknown.
abbrev pub owner_in : Option DeviceRow → String
owner_in none = ""
owner_in (some d) = d.user_id

unfoldable pub device_owner_of : String → Db → String
device_owner_of key db = owner_in (select (is_device key) db.devices)

unfoldable pub device_owner : String → Db → String × Bool
device_owner key db = let owner = device_owner_of key db in (owner, not (same owner ""))

unfoldable pub touch_device : String → ℕ → Tx (Unit {0})
touch_device key now = write λ db. record db {
  devices = update (is_device key) (λ d. record d { last_seen_at = now }) db.devices;
}

abbrev pub found_identity : Option Identity → Tx Identity
found_identity none = fail device_unknown
found_identity (some id) = pure id

unfoldable pub resolve_identity : String → ℕ → Tx Identity
resolve_identity key now = do
  require (not (same key "")) device_unknown
  found ← read (lookup_by_device key)
  id ← found_identity found
  touch_device key now
  pure id

digit : ℕ → String
digit d =
    if d == 0
    then "0"
    else if d == 1
    then "1"
    else if d == 2
    then "2"
    else if d == 3
    then "3"
    else if d == 4
    then "4"
    else if d == 5
    then "5"
    else if d == 6
    then "6"
    else if d == 7
    then "7"
    else if d == 8
    then "8"
    else "9"

-- %d of a number with four digits.
four_digits : ℕ → String
unfolding digit
four_digits n =
    text_append (digit (n / 1000))
      (text_append (digit (n / 100 % 10)) (text_append (digit (n / 10 % 10)) (digit (n % 10))))

abbrev pub assigned_label_attempts : ℕ
assigned_label_attempts = 8

-- The loop of assignedLabelTx: the attempts left, the number of this one, the last candidate.
unfoldable pub assigned_label_from : ℕ → ℕ → String → (ℕ → ℕ) → Db → String
unfolding four_digits
assigned_label_from zero attempt candidate below db = candidate
assigned_label_from (suc left) attempt candidate below db =
    let next = text_append "User" (four_digits (1000 + below attempt)) in
    let rest = assigned_label_from left (attempt + 1) next below db in
    if count (λ u. same u.label next) db.users == 0 then next else rest

unfoldable pub assigned_label : (ℕ → ℕ) → Db → String
unfolding assigned_label_from
assigned_label below db = assigned_label_from assigned_label_attempts 0 "" below db

unfoldable pub count_people : Db → ℕ
count_people db = length db.users

unfoldable pub count_devices : Db → ℕ
count_devices db = length db.devices

abbrev pub person_row : Identity → ℕ → UserRow
person_row p now = record { user_id = p.user_id; label = p.label; created_at = now }

-- insertUser. The singleton index refuses a second row.
unfoldable pub insert_user : Entropy → ℕ → Tx Identity
insert_user rnd now = do
  label ← read (assigned_label rnd.below)
  let id : Identity = record { user_id = text_append "u_" rnd.id; label = label; created = false }
  people ← read (λ db. length db.users)
  require (people == 0) internal
  write (λ db. record db { users = db.users ++ person_row id now ∷ [] })
  pure id

-- insertDevice: the row is added, or refreshed and never re-bound. The table refuses an empty
-- platform, and a new row for a person who is not there.
unfoldable pub insert_device : String → String → String → ℕ → Tx (Unit {0})
insert_device key user platform now = do
  require (not (same platform "")) internal
  known ← read (λ db. count (is_device key) db.devices)
  people ← read (λ db. count (is_user user) db.users)
  require (ltb 0 known || ltb 0 people) internal
  write λ db. record db {
    devices =
        if known == 0
        then db.devices
          ++ record {
            device_key = key;
            user_id = user;
            platform = platform;
            created_at = now;
            last_seen_at = now;
          }
            ∷ []
        else update (is_device key) (λ d. record d { platform = platform; last_seen_at = now })
            db.devices;
  }

-- EnsureJournal, RotateJournal and JournalID.
unfoldable pub ensure_journal : Entropy → Tx (Unit {0})
ensure_journal rnd = write λ db. record db {
  journal = elim db.journal [ some j ↦ some j | none ↦ some (text_append "j_" rnd.id) ];
}

unfoldable pub rotate_journal : Entropy → Tx String
rotate_journal rnd = do
  old ← read (λ db. db.journal)
  let id = text_append "j_" rnd.id
  elim old [ none ↦ fail internal | some _ ↦ pure tt ]
  write (λ db. record db { journal = some id })
  pure id

unfoldable pub set_label : String → String → Tx (Unit {0})
set_label id label = do
  people ← read (λ db. count (is_user id) db.users)
  require (people == 0 || not (same label "")) internal
  write (λ db. record db { users = update (is_user id) (λ u. record u { label = label }) db.users })
