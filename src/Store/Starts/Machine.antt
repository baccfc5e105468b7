-- ===== src/Store/Starts/Machine.antt =====
-- internal/store/serverkey.go: the machine's row, through calls and starts.
use nox_app.Base.{ℕ, String, ◌≡◌, ap, ◌∙◌, false, some, List, arith, length, Bool, true}
use nox_app.Db.{Db, ServerRow, TokenRow}
use nox_app.Tx.{ok}
use nox_app.Tx.Within.{Keeps, Keeps-flow, Within}
use nox_app.Store.Identity.{Entropy, ensure_journal, touch_device, set_label}
use nox_app.Store.Tokens.{exec_tokens, unspent}
use nox_app.Store.Devices.{delete_device}
use nox_app.Store.Effects.{
  after_spend, after_outcome, after_close, after_open, after_link, after_invite, after_user,
  after_bind,
}
use nox_app.Store.Calls.Closings.{Closings}
use nox_app.Store.Calls.Walk.{Writes}
use nox_app.Store.Calls.Removal.{removes_by, void_row}
use nox_app.Store.ServerKey.{Key, key_size, Codec, KeyPair, KeySource, ensure_server_identity}
use nox_app.Store.ServerKey.Laws.{ensure_found, ensure_still, ensure_settles}
use nox_app.Store.Starts.{Event, life, is_rekeyed}
use nox_app.Store.Starts.Kept.{ensure_journal-tables, life-keeps}

module _ (r : ServerRow) where
  -- The machine's row.
  HasRow : Db → Type 0
  HasRow db = db.server_identity ≡ some r

  same_row : (a b : Db) → b.server_identity ≡ a.server_identity → HasRow a → HasRow b
  unfolding HasRow
  same_row a b e v = e ∙ v

  closings_keep : Closings (Keeps HasRow)
  closings_keep = record {
    flow = Keeps-flow HasRow;
    opens = λ rnd pt key platform now db. record {
      at = λ a db' e v.
          let whole = (after_open db db' rnd pt key platform now a e).0 in
          same_row db db' (ground arith) v;
    };
    closes = λ q outcome now db. record {
      at = λ a db' e v.
          let whole = (after_close db db' q outcome now a e).0 in same_row db db' (ground arith) v;
    };
  }

  touch_keep : (key : String) (now : ℕ) (db : Db) → Within (Keeps HasRow) (touch_device key now) db
  unfolding touch_device
  touch_keep key now db = record { at = λ a db' e v. same_row db db' (ground arith) v }

  labels_keep : (user label : String) (db : Db) → Within (Keeps HasRow) (set_label user label) db
  unfolding set_label
  labels_keep user label db = record { at = λ a db' e v. same_row db db' (ground arith) v }

  delete_keep : (key : String) (db : Db) → Within (Keeps HasRow) (delete_device key) db
  unfolding delete_device
  delete_keep key db = record { at = λ a db' e v. same_row db db' (ground arith) v }

  voids_keep :
      (p : TokenRow → Bool) (now : ℕ) (db : Db)
      → ((x : TokenRow) → p x ≡ true → unspent x ≡ true)
      → Within (Keeps HasRow) (exec_tokens p (void_row now)) db
  unfolding exec_tokens
  voids_keep p now db _ = record { at = λ a db' e v. same_row db db' (ground arith) v }

  writes_keep : Writes (Keeps HasRow)
  writes_keep = record {
    closings = closings_keep;
    touches = touch_keep;
    labels = labels_keep;
    users = λ rnd now db. record {
      at = λ a db' e v.
          let whole = (after_user db db' rnd now a e).1 in same_row db db' (ground arith) v;
    };
    binds = λ key user platform now db. record {
      at = λ a db' e v.
          let whole = (after_bind db db' key user platform now a e).1 in
          same_row db db' (ground arith) v;
    };
    spends = λ t key now db. record {
      at = λ a db' e v.
          let whole = (after_spend db db' t key now a e).0 in same_row db db' (ground arith) v;
    };
    records = λ t person db. record {
      at = λ a db' e v.
          let whole = after_outcome db db' t person a e in same_row db db' (ground arith) v;
    };
    links = λ rnd now db. record {
      at = λ a db' e v.
          let whole = (after_link db db' rnd now a e).0 in same_row db db' (ground arith) v;
    };
    invites = λ rnd issuer now db. record {
      at = λ a db' e v.
          let whole = (after_invite db db' rnd issuer now a e).2 in
          same_row db db' (ground arith) v;
    };
    removes = removes_by closings_keep voids_keep delete_keep;
  }

  row_stays :
      (codec : Codec) (keys : KeySource) (db : Db)
      → Within (Keeps HasRow) (ensure_server_identity codec keys) db
  unfolding HasRow
  row_stays codec keys db = record {
    at = λ k db' e v. ap (λ d. d.server_identity) (ensure_still codec keys db db' r k v e).1 ∙ v;
  }

  row_stays_dated : (rnd : Entropy) (db : Db) → Within (Keeps HasRow) (ensure_journal rnd) db
  row_stays_dated rnd db = record {
    at = λ a db' e v. same_row db db' (ensure_journal-tables rnd db db' a e).2 v;
  }

  life-HasRow :
      (db : Db) (es : List Event)
      → is_rekeyed db es ≡ false
      → db.server_identity ≡ some r
      → (life db es).server_identity ≡ some r
  unfolding HasRow
  life-HasRow db es h v = life-keeps HasRow writes_keep row_stays row_stays_dated db es h v

-- Where the codec decodes a generated public key that it encoded, and it has 32 bytes: the identity
-- that a call answers is what a call answers after every history of pairing calls and starts in which no
-- start replaces the public key, whatever the later call's key source is, and it writes nothing.
pub ensure_server_identity_again :
    (codec : Codec) (keys keys' : KeySource) (db db' : Db) (k : Key) (es : List Event)
    → ((p : KeyPair)
        → keys.generated ≡ some p
        → codec.decode (codec.encode p.public_key) ≡ some p.public_key)
    → ((p : KeyPair) → keys.generated ≡ some p → length p.public_key ≡ key_size)
    → ensure_server_identity codec keys db ≡ ok (k, db')
    → is_rekeyed db' es ≡ false
    → ensure_server_identity codec keys' (life db' es) ≡ ok (k, life db' es)
ensure_server_identity_again codec keys keys' db db' k es back size e h =
    let (r, there, answer) = ensure_settles codec keys db db' k back size e in
    ensure_found codec keys' (life db' es) r k (life-HasRow r db' es h there) answer
