-- ===== src/Store/OneLink.antt =====
-- internal/store/pairing.go: the machine links that are unspent.
use nox_app.Base.{ℕ, ◌≤◌, String, ◌≡◌, Bool, true, some, List, [], ◌∷◌, ◌++◌, arith}
use nox_app.Sql.{update, count}
use nox_app.Sql.Laws.{count-append}
use nox_app.Sql.Counts.{count-update-le, count-update-zero}
use nox_app.Db.{Db, DeviceRow, TokenRow}
use nox_app.Tx.{ok}
use nox_app.Tx.Within.{Keeps, Keeps-flow, Within}
use nox_app.Store.Identity.{Entropy, touch_device, set_label}
use nox_app.Store.Tokens.{
  open_machine, is_token, unspent, insert_machine_link, exec_tokens, MachineLink, link_row,
  invite_row,
}
use nox_app.Store.Devices.{delete_device}
use nox_app.Store.Effects.{
  after_spend, after_outcome, after_close, after_open, after_link, after_invite, after_user,
  after_bind, voided, spendable, spent_row, outcome_row,
}
use nox_app.Store.Calls.{Call, history}
use nox_app.Store.Calls.Closings.{Closings}
use nox_app.Store.Calls.Walk.{Writes, history-R}
use nox_app.Store.Calls.Removal.{removes_by, void_row}

abbrev pub live_links : Db → ℕ
live_links db = count open_machine db.tokens

pub record HasOneLink (db : Db) : Type 0 where
  pub one : live_links db ≤ 1

-- A write of the tokens that opens no machine link.
shrinks :
    (a b : Db) (p : TokenRow → Bool) (f : TokenRow → TokenRow)
    → b.tokens ≡ update p f a.tokens
    → ((r : TokenRow) → open_machine (f r) ≡ true → open_machine r ≡ true)
    → HasOneLink a
    → HasOneLink b
shrinks a b p f e h v = record {
  one = rw e (omega (arith, count-update-le open_machine p f a.tokens h));
}

same_tokens : (a b : Db) → b.tokens ≡ a.tokens → HasOneLink a → HasOneLink b
same_tokens a b e v = record { one = rw e v.one }

-- After a machine link is minted, exactly one machine link is unspent.
pub live_links-insert_machine_link :
    (rnd : Entropy) (now : ℕ) (db db' : Db) (a : MachineLink)
    → insert_machine_link rnd now db ≡ ok (a, db')
    → live_links db' ≡ 1
unfolding count
live_links-insert_machine_link rnd now db db' a e =
    let whole = (after_link db db' rnd now a e).0 in
    let added = count-append open_machine (voided now db.tokens) (link_row a.token now ∷ []) in
    let gone =
      count-update-zero open_machine open_machine (λ r. record r { used_at = some now }) db.tokens
        (λ r h. h) (λ r h. ground arith) (λ r h. ground arith) in
    ground arith

closings_keep : Closings (Keeps HasOneLink)
closings_keep = record {
  flow = Keeps-flow HasOneLink;
  opens = λ rnd pt key platform now db. record {
    at = λ a db' e v.
        let whole = (after_open db db' rnd pt key platform now a e).0 in
        same_tokens db db' (ground arith) v;
  };
  closes = λ r outcome now db. record {
    at = λ a db' e v.
        let whole = (after_close db db' r outcome now a e).0 in
        shrinks db db' (spendable r.token) (spent_row r.device_key now) (ground arith)
          (λ t h. ground arith) v;
  };
}

touch_keep :
    (key : String) (now : ℕ) (db : Db) → Within (Keeps HasOneLink) (touch_device key now) db
unfolding touch_device
touch_keep key now db = record { at = λ a db' e v. same_tokens db db' (ground arith) v }

labels_keep : (id label : String) (db : Db) → Within (Keeps HasOneLink) (set_label id label) db
unfolding set_label
labels_keep id label db = record { at = λ a db' e v. same_tokens db db' (ground arith) v }

delete_keep : (key : String) (db : Db) → Within (Keeps HasOneLink) (delete_device key) db
unfolding delete_device
delete_keep key db = record { at = λ a db' e v. same_tokens db db' (ground arith) v }

voids_keep :
    (p : TokenRow → Bool) (now : ℕ) (db : Db)
    → ((r : TokenRow) → p r ≡ true → unspent r ≡ true)
    → Within (Keeps HasOneLink) (exec_tokens p (void_row now)) db
unfolding exec_tokens
voids_keep p now db _ = record {
  at = λ a db' e v. shrinks db db' p (void_row now) (ground arith) (λ t h. ground arith) v;
}

invites_keep :
    (a b : Db) (token : String) (d : DeviceRow) (now : ℕ)
    → b.tokens ≡ a.tokens ++ invite_row token d now ∷ []
    → HasOneLink a
    → HasOneLink b
unfolding count
invites_keep a b token d now e v = record {
  one = rw e (omega (arith, count-append open_machine a.tokens (invite_row token d now ∷ [])));
}

writes_keep : Writes (Keeps HasOneLink)
writes_keep = record {
  closings = closings_keep;
  touches = touch_keep;
  labels = labels_keep;
  users = λ rnd now db. record {
    at = λ a db' e v.
        let whole = (after_user db db' rnd now a e).1 in same_tokens db db' (ground arith) v;
  };
  binds = λ key user platform now db. record {
    at = λ a db' e v.
        let whole = (after_bind db db' key user platform now a e).1 in
        same_tokens db db' (ground arith) v;
  };
  spends = λ t key now db. record {
    at = λ a db' e v.
        let whole = (after_spend db db' t key now a e).0 in
        shrinks db db' (spendable t) (spent_row key now) (ground arith) (λ r h. ground arith) v;
  };
  records = λ t id db. record {
    at = λ a db' e v.
        let whole = after_outcome db db' t id a e in
        shrinks db db' (is_token t) (outcome_row id) (ground arith) (λ r h. ground arith) v;
  };
  links = λ rnd now db. record {
    at = λ a db' e v. record {
      one = omega (arith, live_links-insert_machine_link rnd now db db' a e);
    };
  };
  invites = λ rnd issuer now db. record {
    at = λ a db' e v.
        let (d, there, whole, fresh) = after_invite db db' rnd issuer now a e in
        invites_keep db db' a d now (ground arith) v;
  };
  removes = removes_by closings_keep voids_keep delete_keep;
}

-- If at most one machine link is unspent, then so it is after every history of pairing calls.
pub history-HasOneLink : (db : Db) (cs : List Call) → HasOneLink db → HasOneLink (history db cs)
history-HasOneLink db cs v = history-R writes_keep db cs v
