-- ===== src/Store/Starts/Kept.antt =====
-- internal/store/serverkey.go: what a start leaves as it was, where it does not replace the key.
use nox_app.Base.{
  ◌≡◌, refl, sym, subst, Bool, true, false, Option, none, some, List, [], ◌∷◌, arith, inl, inr,
  Option-cases,
}
use nox_app.Db.{Db, ServerRow}
use nox_app.Tx.{Result, ok, err, run, settle}
use nox_app.Tx.Within.{Keeps, Within}
use nox_app.Store.Identity.{Entropy, ensure_journal}
use nox_app.Store.ServerKey.{
  Key, Codec, KeySource, ensure_server_identity, mint_server_identity, decode_server_public_key,
  server_key, key_of_row,
}
use nox_app.Store.ServerKey.Laws.{kept_by}
use nox_app.Store.Calls.Walk.{Writes, step-R, after_run}
use nox_app.Store.Starts.{
  Event, called, ensures, journals, reads_key, happen, life, replaced, is_rekeyed,
}

module _ (codec : Codec) (keys : KeySource) where
  still_of :
      (db : Db) (x : Result ((Key × Bool) × Db))
      → ((own : Key) (db' : Db) → x ≡ ok ((own, false), db') → db' ≡ db)
      → replaced x ≡ false
      → (settle db x).0 ≡ db
  unfolding replaced
  still_of db (err e) k h = refl
  still_of db (ok ((own, true), db')) k h = absurd (ground arith)
  still_of db (ok ((own, false), db')) k h = k own db' refl

  -- A start that replaces nothing writes nothing.
  server_key-still :
      (seen db : Db)
      → replaced (server_key codec keys seen db) ≡ false
      → (run (server_key codec keys seen) db).0 ≡ db
  unfolding server_key
  server_key-still seen db h =
      still_of db (key_of_row codec keys seen.server_identity db)
        (λ own db' e. go seen.server_identity own db' e) h
    where
      go :
          (o : Option ServerRow) (own : Key) (db' : Db)
          → key_of_row codec keys o db ≡ ok ((own, false), db')
          → db' ≡ db
      go none own db' e = absurd (ground arith)
      go (some r) own db' e = kept_by codec keys r db db' own e

  -- Making the identity writes the machine's row alone.
  pub ensure-tables :
      (db db' : Db) (k : Key)
      → ensure_server_identity codec keys db ≡ ok (k, db')
      → (db'.tokens ≡ db.tokens) × (db'.requests ≡ db.requests)
  unfolding ensure_server_identity mint_server_identity decode_server_public_key
  ensure-tables db db' k e = elim (Option-cases db.server_identity) [
    | inr (r, there) ↦ (ground arith, ground arith)
    | inl none_yet ↦ (ground arith, ground arith)
  ]

-- Naming the journal writes none of these tables.
pub ensure_journal-tables :
    (rnd : Entropy) (db db' : Db) (a : Unit {0})
    → ensure_journal rnd db ≡ ok (a, db')
    → (db'.tokens ≡ db.tokens)
      × (db'.requests ≡ db.requests)
      × (db'.server_identity ≡ db.server_identity)
unfolding ensure_journal
ensure_journal-tables rnd db db' a e = (ground arith, ground arith, ground arith)

module _ (P : Db → Type 0) (w : Writes (Keeps P))
    (made : (codec : Codec) (keys : KeySource) (db : Db)
      → Within (Keeps P) (ensure_server_identity codec keys) db)
    (dated : (rnd : Entropy) (db : Db) → Within (Keeps P) (ensure_journal rnd) db) where
  happen-keeps : (db : Db) (e : Event) → is_rekeyed db (e ∷ []) ≡ false → P db → P (happen db e)
  unfolding happen is_rekeyed
  happen-keeps db (called c) h v = step-R w db c v
  happen-keeps db (ensures codec keys) h v = after_run w _ db (made codec keys db) v
  happen-keeps db (journals rnd) h v = after_run w _ db (dated rnd db) v
  happen-keeps db (reads_key codec keys seen) h v =
      subst P (sym (server_key-still codec keys seen db (ground arith))) v

  pub life-keeps : (db : Db) (es : List Event) → is_rekeyed db es ≡ false → P db → P (life db es)
  unfolding life is_rekeyed
  life-keeps db [] h v = v
  life-keeps db (e ∷ es) h v =
      life-keeps (happen db e) es (ground arith) (happen-keeps db e (ground arith) v)
