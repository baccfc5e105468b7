-- ===== src/Store/OnePerson.antt =====
-- The person of the machine: users and devices under the calls of internal/store on pairing.
use nox_app.Base.{
  ℕ, ◌≤◌, ◌<◌, String, ◌≡◌, refl, Bool, true, List, [], ◌∷◌, ◌++◌, arith, length, All, inl, inr,
  length-append,
}
use nox_app.Sql.{update, delete, count}
use nox_app.Sql.Laws.{All-update, All-append, All-delete, All-mono, count-append}
use nox_app.Sql.Counts.{count-update, length-update}
use nox_app.Db.{Db, UserRow, DeviceRow, TokenRow}
use nox_app.Tx.Within.{Keeps, Keeps-flow, moved, Within}
use nox_app.Store.Identity.{
  Entropy, is_device, is_user, touch_device, insert_user, set_label, person_row,
}
use nox_app.Store.Tokens.{bind_device, exec_tokens, unspent}
use nox_app.Store.Devices.{delete_device}
use nox_app.Store.Effects.{
  after_spend, after_outcome, after_close, after_open, after_link, after_invite, after_user,
  after_bind,
}
use nox_app.Store.Calls.{Call, history}
use nox_app.Store.Calls.Closings.{Closings}
use nox_app.Store.Calls.Walk.{Writes, history-R}
use nox_app.Store.Calls.Removal.{removes_by, void_row}

abbrev pub HasPerson : List UserRow → DeviceRow → Type 0
HasPerson users d = 0 < count (is_user d.user_id) users

pub record IsOnePerson (db : Db) : Type 0 where
  pub at_most : length db.users ≤ 1
  pub owned : All (HasPerson db.users) db.devices

-- The invariant reads no table but users and devices.
same_people : (a b : Db) → b.users ≡ a.users → b.devices ≡ a.devices → IsOnePerson a → IsOnePerson b
same_people a b u d v = record { at_most = rw u v.at_most; owned = rw (u, d) v.owned }

refreshed :
    (db : Db) (p : DeviceRow → Bool) (f : DeviceRow → DeviceRow)
    → ((d : DeviceRow) → (f d).user_id ≡ d.user_id)
    → IsOnePerson db
    → IsOnePerson (record db { devices = update p f db.devices })
refreshed db p f h v = record {
  at_most = v.at_most;
  owned =
      All-update (HasPerson db.users) (HasPerson db.users) p f db.devices
        (λ d o. ground (arith, h d)) v.owned;
}

labels_keep : (id label : String) (db : Db) → Within (Keeps IsOnePerson) (set_label id label) db
unfolding set_label
labels_keep id label db = record {
  at = λ a db' e v.
      let renamed = update (is_user id) (λ u. record u { label = label }) db.users in
      moved IsOnePerson {a = db'} {b = record db { users = renamed }} (ground arith) (record {
        at_most =
            rw (length-update (is_user id) (λ u. record u { label = label }) db.users) v.at_most;
        owned =
            All-mono (HasPerson db.users) (HasPerson renamed) db.devices
              (λ d o.
                rw
                  (count-update (is_user d.user_id) (is_user id) (λ u. record u { label = label })
                    db.users (λ u. refl))
                  o)
              v.owned;
      });
}

user_keep :
    (rnd : Entropy) (now : ℕ) (db : Db) → Within (Keeps IsOnePerson) (insert_user rnd now) db
user_keep rnd now db = record {
  at = λ a db' e v.
      let (none_yet, whole) = after_user db db' rnd now a e in
      moved IsOnePerson whole (record {
        at_most = omega (arith, length-append db.users (person_row a now ∷ []));
        owned =
            All-mono (HasPerson db.users) (HasPerson (db.users ++ person_row a now ∷ [])) db.devices
              (λ d o.
                omega (arith, count-append (is_user d.user_id) db.users (person_row a now ∷ [])))
              v.owned;
      });
}

bind_keep :
    (key user platform : String) (now : ℕ) (db : Db)
    → Within (Keeps IsOnePerson) (bind_device key user platform now) db
bind_keep key user platform now db = record {
  at = λ a db' e v. elim (after_bind db db' key user platform now a e).1 [
    | inl (_, whole) ↦ moved IsOnePerson whole (refreshed db _ _ (λ d. refl) v)
    | inr (_, there, whole) ↦ moved IsOnePerson whole (record {
      at_most = v.at_most;
      owned = All-append (HasPerson db.users) db.devices _ v.owned (there, tt);
    })
  ];
}

closings_keep : Closings (Keeps IsOnePerson)
closings_keep = record {
  flow = Keeps-flow IsOnePerson;
  opens = λ rnd pt key platform now db. record {
    at = λ a db' e v.
        let whole = (after_open db db' rnd pt key platform now a e).0 in
        same_people db db' (ground arith) (ground arith) v;
  };
  closes = λ r outcome now db. record {
    at = λ a db' e v.
        let whole = (after_close db db' r outcome now a e).0 in
        same_people db db' (ground arith) (ground arith) v;
  };
}

touch_keep :
    (key : String) (now : ℕ) (db : Db) → Within (Keeps IsOnePerson) (touch_device key now) db
unfolding touch_device
touch_keep key now db = record {
  at = λ a db' e v.
      moved IsOnePerson (ground arith)
        (refreshed db (is_device key) (λ d. record d { last_seen_at = now }) (λ d. refl) v);
}

delete_keep : (key : String) (db : Db) → Within (Keeps IsOnePerson) (delete_device key) db
unfolding delete_device
delete_keep key db = record {
  at = λ a db' e v.
      moved IsOnePerson {a = db'} {b = record db { devices = delete (is_device key) db.devices }}
        (ground arith)
        (record {
          at_most = v.at_most;
          owned = All-delete (is_device key) (HasPerson db.users) db.devices v.owned;
        });
}

voids_keep :
    (p : TokenRow → Bool) (now : ℕ) (db : Db)
    → ((r : TokenRow) → p r ≡ true → unspent r ≡ true)
    → Within (Keeps IsOnePerson) (exec_tokens p (void_row now)) db
unfolding exec_tokens
voids_keep p now db _ = record {
  at = λ a db' e v. same_people db db' (ground arith) (ground arith) v;
}

writes_keep : Writes (Keeps IsOnePerson)
writes_keep = record {
  closings = closings_keep;
  touches = touch_keep;
  labels = labels_keep;
  users = user_keep;
  binds = bind_keep;
  spends = λ t key now db. record {
    at = λ a db' e v.
        let whole = (after_spend db db' t key now a e).0 in
        same_people db db' (ground arith) (ground arith) v;
  };
  records = λ t id db. record {
    at = λ a db' e v.
        let whole = after_outcome db db' t id a e in
        same_people db db' (ground arith) (ground arith) v;
  };
  links = λ rnd now db. record {
    at = λ a db' e v.
        let whole = (after_link db db' rnd now a e).0 in
        same_people db db' (ground arith) (ground arith) v;
  };
  invites = λ rnd issuer now db. record {
    at = λ a db' e v.
        let whole = (after_invite db db' rnd issuer now a e).2 in
        same_people db db' (ground arith) (ground arith) v;
  };
  removes = removes_by closings_keep voids_keep delete_keep;
}

-- If the store holds one person at most and every device belongs to a person it holds, then so it
-- is after every history of pairing calls.
pub history-IsOnePerson : (db : Db) (cs : List Call) → IsOnePerson db → IsOnePerson (history db cs)
history-IsOnePerson db cs v = history-R writes_keep db cs v
