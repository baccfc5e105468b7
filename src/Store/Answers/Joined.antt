-- ===== src/Store/Answers/Joined.antt =====
-- internal/store/requests.go: the devices after an Allow or a Deny.
use nox_app.Base.{
  ℕ, String, ◌≡◌, ◌≢◌, refl, ap, sym, subst, ◌∙◌, true, false, List, [], ◌∷◌, ◌++◌, arith, All,
  same→eq, ◌⊎◌, inl, inr, Option-cases,
}
use nox_app.Sql.{select, update, count}
use nox_app.Sql.Laws.{
  select-update, select-append, select-meets, select_of_count, count_of_select, All-select,
}
use nox_app.Db.{Db, DeviceRow}
use nox_app.Tx.{ok}
use nox_app.Store.Identity.{device_owner_of, is_device, is_user}
use nox_app.Store.Tokens.{bind_device}
use nox_app.Store.Requests.{PairRequest, Decision, decide_pair_request}
use nox_app.Store.Effects.{after_bind}
use nox_app.Store.Answers.{IsAnswerable, decided, after_allow}
use nox_app.Store.Calls.Closings.{denies}
use nox_app.Store.Calls.Quiet.{IsQuiet, closings-IsQuiet}

-- A device that is bound belongs to the person, and every other device row stays as it was.
pub record IsBound (key user : String) (a b : Db) : Type 0 where
  pub owner : device_owner_of key b ≡ user
  pub others :
      (k : String) → k ≢ key → select (is_device k) b.devices ≡ select (is_device k) a.devices

pub owner_of_rows :
    (key : String) (a b : Db)
    → a.devices ≡ b.devices
    → device_owner_of key b ≡ device_owner_of key a
unfolding device_owner_of
owner_of_rows key a b e = rw e

abbrev refreshed : String → ℕ → DeviceRow → DeviceRow
refreshed platform now d = record d { platform = platform; last_seen_at = now }

others_kept :
    (key platform : String) (now : ℕ) (k : String) (ds : List DeviceRow)
    → k ≢ key
    → select (is_device k) (update (is_device key) (refreshed platform now) ds)
      ≡ select (is_device k) ds
others_kept key platform now k ds ne =
    let seen =
      select-update (is_device k) (is_device key) (refreshed platform now) ds (λ d. refl) in
    elim (Option-cases (select (is_device k) ds)) [
      | inl missing ↦ ground arith
      | inr (d, hit) ↦
          let here = same→eq d.device_key k (select-meets (is_device k) ds d hit) in ground arith
    ]

owner_kept :
    (key user platform : String) (now : ℕ) (a b : Db)
    → All (λ d. d.user_id ≢ "") a.devices
    → (device_owner_of key a ≡ "") ⊎ (device_owner_of key a ≡ user)
    → count (is_device key) a.devices ≢ 0
    → b.devices ≡ update (is_device key) (refreshed platform now) a.devices
    → device_owner_of key b ≡ user
unfolding device_owner_of
owner_kept key user platform now a b named owner known rows =
    let seen =
      select-update (is_device key) (is_device key) (refreshed platform now) a.devices
        (λ d. refl) in
    elim (Option-cases (select (is_device key) a.devices)) [
      | inl missing ↦ absurd (known (count_of_select (is_device key) a.devices missing))
      | inr (d, hit) ↦
          let person = All-select (is_device key) (λ d. d.user_id ≢ "") a.devices d named hit in
          rw rows (ground arith)
    ]

-- Pairing a key writes its row and no other, and the row names the person.
pub bind_device-IsBound :
    (key user platform : String) (now : ℕ) (db db' : Db)
    → All (λ d. d.user_id ≢ "") db.devices
    → bind_device key user platform now db ≡ ok (tt, db')
    → IsBound key user db db'
unfolding device_owner_of select
bind_device-IsBound key user platform now db db' named e =
    let (owner, cases) = after_bind db db' key user platform now tt e in
    elim cases [
      | inl (known, whole) ↦
          let rows : db'.devices ≡ update (is_device key) (refreshed platform now) db.devices =
            ground arith in
          record {
            owner = owner_kept key user platform now db db' named owner known rows;
            others = λ k ne. rw rows (others_kept key platform now k db.devices ne);
          }
      | inr (new, there, whole) ↦
          let none_yet = select_of_count (is_device key) db.devices new in
          let row : DeviceRow = record {
            device_key = key;
            user_id = user;
            platform = platform;
            created_at = now;
            last_seen_at = now;
          } in
          let rows : db'.devices ≡ db.devices ++ row ∷ [] = ground arith in
          record {
            owner = rw rows (ground (arith, select-append (is_device key) db.devices (row ∷ [])));
            others =
                λ k ne. rw rows (ground (arith, select-append (is_device k) db.devices (row ∷ [])));
          }
    ]

-- Where no device row has an empty person, an Allow that succeeds was about a request that its
-- issuer could answer; after it the device that asked belongs to the person of the issuer, and
-- every other key reads the device row that it read before.
pub allow-IsBound :
    (id issuer : String) (now : ℕ) (db db' : Db) (d : Decision)
    → All (λ d. d.user_id ≢ "") db.devices
    → decide_pair_request id issuer true now db ≡ ok (d, db')
    → (r : PairRequest) × IsAnswerable id issuer now db r
      × IsBound r.device_key (device_owner_of issuer db) db db'
allow-IsBound id issuer now db db' d named e =
    let (r, fit, answered) = decided id issuer true now db db' d e in
    let done = after_allow r (device_owner_of issuer db) now db db' d answered in
    let person : done.user.user_id ≡ device_owner_of issuer db =
      same→eq _ _
        (select-meets (is_user (device_owner_of issuer db)) db.users done.user done.read_user) in
    let bound =
      bind_device-IsBound r.device_key done.user.user_id r.platform now done.before
        (record done.before { devices = db'.devices })
        (subst (All (λ d. d.user_id ≢ "")) (sym done.before_devices) named) done.bound in
    (
      r,
      fit,
      record {
        owner = owner_of_rows r.device_key _ db' refl ∙ bound.owner ∙ person;
        others = λ k ne. bound.others k ne ∙ ap (select (is_device k)) done.before_devices;
      },
    )

-- A Deny that succeeds changes neither the devices nor the people.
pub deny-IsQuiet :
    (id issuer : String) (now : ℕ) (db db' : Db) (d : Decision)
    → decide_pair_request id issuer false now db ≡ ok (d, db')
    → IsQuiet db db'
deny-IsQuiet id issuer now db db' d e =
    let (r, fit, answered) = decided id issuer false now db db' d e in
    (denies closings-IsQuiet r now db).at d db' answered
