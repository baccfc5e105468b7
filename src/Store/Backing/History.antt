-- ===== src/Store/Backing/History.antt =====
-- The calls of internal/store on pairing, and the devices behind invites and requests.
use nox_app.Base.{
  ℕ, String, ◌≡◌, refl, subst, sym, some, List, [], ◌∷◌, arith, All, Bool-cases, same→eq, inl, inr,
}
use nox_app.Sql.{select, update, delete, count}
use nox_app.Sql.Laws.{All-update, All-append, All-mono, count-append, select-meets}
use nox_app.Sql.Counts.{count-update, count_of_found}
use nox_app.Db.{Db, DeviceRow}
use nox_app.Tx.Within.{Keeps, Keeps-flow, Within, moved}
use nox_app.Store.Identity.{is_device, touch_device, set_label}
use nox_app.Store.Tokens.{is_token, open_machine, link_row, invite_row, bind_device}
use nox_app.Store.Devices.{remove_device}
use nox_app.Store.Effects.{
  after_spend, after_outcome, after_close, after_open, after_link, after_invite, after_user,
  after_bind, voided, spendable, spent_row, outcome_row, closable, closed_row,
}
use nox_app.Store.Calls.{Call, history}
use nox_app.Store.Calls.Closings.{Closings}
use nox_app.Store.Calls.Walk.{Writes, history-R}
use nox_app.Store.Calls.Removal.{void_row}
use nox_app.Store.Backing.Revoking.{after_remove}
use nox_app.Store.Backing.{
  IsPaired, InviteFits, RequestFits, IsBacked, spends_keep, invites_mono, grown, spent_keep,
  added_keep, IsPaired-of_owner,
}

found-IsPaired :
    (key : String) (db : Db) (d : DeviceRow)
    → select (is_device key) db.devices ≡ some d
    → IsPaired db.devices d.device_key
found-IsPaired key db d e =
    let same_key = same→eq d.device_key key (select-meets (is_device key) db.devices d e) in
    subst (IsPaired db.devices) (sym same_key) (count_of_found (is_device key) db.devices d e)

closings_keep : Closings (Keeps IsBacked)
closings_keep = record {
  flow = Keeps-flow IsBacked;
  opens = λ rnd pt key platform now db. record {
    at = λ a db' e v.
        let facts = after_open db db' rnd pt key platform now a e in
        moved IsBacked facts.0 (record {
          invites = v.invites;
          requests =
              All-append (RequestFits (IsPaired db.devices)) db.requests _ v.requests
                ((λ w. IsPaired-of_owner pt.issuer_key db facts.1), tt);
        });
  };
  closes = λ r outcome now db. record {
    at = λ a db' e v. moved IsBacked (after_close db db' r outcome now a e).0 (record {
      invites =
          spends_keep (IsPaired db.devices) (spendable r.token) (spent_row r.device_key now)
            db.tokens (λ t u. cc) (λ t. refl) v.invites;
      requests =
          All-update (RequestFits (IsPaired db.devices)) (RequestFits (IsPaired db.devices))
            (closable r.request_id) (closed_row outcome now) db.requests
            (λ x fits. elim (Bool-cases (closable r.request_id x)) [
              | inl h ↦ rw h (λ w. cc)
              | inr h ↦ rw h fits
            ])
            v.requests;
    });
  };
}

touch_keep : (key : String) (now : ℕ) (db : Db) → Within (Keeps IsBacked) (touch_device key now) db
unfolding touch_device
touch_keep key now db = record {
  at = λ a db' e v.
      let touched_row = λ (d : DeviceRow). record d { last_seen_at = now } in
      moved IsBacked {b = record db { devices = update (is_device key) touched_row db.devices }}
        (ground arith)
        (grown db _ refl refl
          (λ k h.
            rw (count-update (is_device k) (is_device key) touched_row db.devices (λ d. refl)) h)
          v);
}

labels_keep : (id label : String) (db : Db) → Within (Keeps IsBacked) (set_label id label) db
unfolding set_label
labels_keep id label db = record {
  at = λ a db' e v.
      grown db db' (ground arith) (ground arith)
        (λ k h. subst (λ ds. IsPaired ds k) {x = db.devices} {y = db'.devices} (ground arith) h) v;
}

bind_keep :
    (key user platform : String) (now : ℕ) (db : Db)
    → Within (Keeps IsBacked) (bind_device key user platform now) db
unfolding count
bind_keep key user platform now db = record {
  at = λ a db' e v. elim (after_bind db db' key user platform now a e).1 [
    | inl (_, whole) ↦ moved IsBacked whole (
        grown db _ refl refl
          (λ k h.
            rw
              (count-update (is_device k) (is_device key)
                (λ d. record d { platform = platform; last_seen_at = now }) db.devices (λ d. refl))
              h)
          v)
    | inr (_, _, whole) ↦ moved IsBacked whole (
        grown db _ refl refl
          (λ k h. omega (
            arith,
            count-append (is_device k) db.devices (
                record {
                  device_key = key;
                  user_id = user;
                  platform = platform;
                  created_at = now;
                  last_seen_at = now;
                }
                ∷ []),
          ))
          v)
  ];
}

remove_keep :
    (key : String) (now : ℕ) (db : Db) → Within (Keeps IsBacked) (remove_device key now) db
remove_keep key now db = record {
  at = λ a db' e v.
      let (devices, gone) = after_remove key now db db' a e v in
      record {
        invites =
            subst (λ ds. All (InviteFits (IsPaired ds)) db'.tokens) (sym devices)
              (invites_mono _ (IsPaired (delete (is_device key) db.devices)) (λ k h. h.0) db'.tokens
                gone.invites);
        requests =
            subst (λ ds. All (RequestFits (IsPaired ds)) db'.requests) (sym devices)
              (All-mono _ (RequestFits (IsPaired (delete (is_device key) db.devices))) db'.requests
                (λ r w h. (w h).0) gone.requests);
      };
}

writes_keep : Writes (Keeps IsBacked)
writes_keep = record {
  closings = closings_keep;
  touches = touch_keep;
  labels = labels_keep;
  users = λ rnd now db. record {
    at = λ a db' e v.
        moved IsBacked (after_user db db' rnd now a e).1 (grown db _ refl refl (λ k h. h) v);
  };
  binds = bind_keep;
  spends = λ t key now db. record {
    at = λ a db' e v.
        spent_keep db db' (spendable t) (spent_row key now) (after_spend db db' t key now a e).0
          (λ r u. cc) (λ r. refl) v;
  };
  records = λ t id db. record {
    at = λ a db' e v.
        spent_keep db db' (is_token t) (outcome_row id) (after_outcome db db' t id a e) (λ r u. u)
          (λ r. refl) v;
  };
  links = λ rnd now db. record {
    at = λ a db' e v.
        added_keep db db' (link_row a.token now) (voided now db.tokens)
          (after_link db db' rnd now a e).0
          (spends_keep (IsPaired db.devices) open_machine (void_row now) db.tokens (λ t u. cc)
            (λ t. refl) v.invites)
          (λ u k h. cc) v;
  };
  invites = λ rnd issuer now db. record {
    at = λ a db' e v.
        let (d, there, whole, fresh) = after_invite db db' rnd issuer now a e in
        added_keep db db' (invite_row a d now) db.tokens whole v.invites
          (λ u k h.
            subst (IsPaired db.devices) {x = d.device_key} {y = k} (cc)
              (found-IsPaired issuer db d there))
          v;
  };
  removes = remove_keep;
}

-- If every unspent invite and every waiting request has a paired issuer, then they do after every
-- history of pairing calls.
pub history-IsBacked : (db : Db) (cs : List Call) → IsBacked db → IsBacked (history db cs)
history-IsBacked db cs v = history-R writes_keep db cs v
