-- ===== src/Tx/Within.antt =====
-- Where a transaction can take the database: one rule for each way to build a transaction.
use nox_app.Base.{◌≡◌, refl, sym, subst, Bool, true, false, arith, if◌then◌else◌}
use nox_app.Db.{Db}
use nox_app.Tx.{Tx, Result, ok, err, Error, pure, fail, ◌>>=◌, read, require}

-- A relation from the database before to the database after, closed under doing nothing and under
-- one thing after another.
pub record IsFlow (R : Db → Db → Type 0) : Type 0 where
  pub still : (db : Db) → R db db
  pub chain : (a b c : Db) → R a b → R b c → R a c

-- From `db`, a transaction that succeeds ends where `R` says.
pub record Within (R : Db → Db → Type 0) {A : Type 0} (m : Tx A) (db : Db) : Type 0 where
  pub at : (a : A) (db' : Db) → m db ≡ ok (a, db') → R db db'

module _ {R : Db → Db → Type 0} (flow : IsFlow R) where
  still_at : (a b : Db) → a ≡ b → R a b
  still_at a b e = subst (R a) e (flow.still a)

  pub Within-read : {A : Type 0} (f : Db → A) (db : Db) → Within R (read f) db
  Within-read f db = record { at = λ a db' e. still_at db db' (ground arith) }

  pub Within-pure : {A : Type 0} (a : A) (db : Db) → Within R (pure a) db
  Within-pure a db = record { at = λ x db' e. still_at db db' (ground arith) }

  pub Within-require : (b : Bool) (x : Error) (db : Db) → Within R (require b x) db
  Within-require true x db = record { at = λ a db' e. still_at db db' (ground arith) }
  Within-require false x db = record { at = λ a db' e. cc }

  -- The rest of a block starts where its first part ended, and may use how that part ended.
  pub Within-bind :
      {A B : Type 0} (m : Tx A) (f : A → Tx B) (db : Db)
      → Within R m db
      → ((a : A) (db' : Db) → m db ≡ ok (a, db') → Within R (f a) db')
      → Within R (m >>= f) db
  Within-bind {A} {B} m f db wm wf = record {
    at = λ b db'' e. go (m db) b db'' wm.at (λ a db' q. (wf a db' q).at) e;
  }
    where
      go :
          (r : Result (A × Db)) (b : B) (db'' : Db)
          → ((a : A) (db' : Db) → r ≡ ok (a, db') → R db db')
          → ((a : A) (db' : Db)
              → r ≡ ok (a, db')
              → (b : B) (c : Db) → f a db' ≡ ok (b, c)
              → R db' c)
          → (elim r [ ok (a, db') ↦ f a db' | err e ↦ err e ]) ≡ ok (b, db'')
          → R db db''
      go (ok (a, db')) b db'' first rest e =
          flow.chain db db' db'' (first a db' refl) (rest a db' refl b db'' e)
      go (err x) b db'' first rest e = cc

module _ {R : Db → Db → Type 0} where
  pub Within-fail : {A : Type 0} (x : Error) (db : Db) → Within R (fail {A = A} x) db
  Within-fail x db = record { at = λ a db' e. cc }

  pub Within-if :
      {A : Type 0} (b : Bool) (m n : Tx A) (db : Db)
      → (b ≡ true → Within R m db)
      → (b ≡ false → Within R n db)
      → Within R (if b then m else n) db
  Within-if true m n db wm wn = wm refl
  Within-if false m n db wm wn = wn refl

-- An invariant, as the relation that carries it from the database before to the one after.
abbrev pub Keeps : (Db → Type 0) → Db → Db → Type 0
Keeps P a b = P a → P b

pub Keeps-flow : (P : Db → Type 0) → IsFlow (Keeps P)
Keeps-flow P = record { still = λ db v. v; chain = λ a b c f g v. g (f v) }

-- What a lemma says of the written-out database holds of the one that the transaction ends with.
pub moved : (P : Db → Type 0) {a b : Db} → a ≡ b → P b → P a
moved P e v = subst P (sym e) v

-- A block that succeeds: how its first part ended, and how the rest of it did from there.
pub >>=-eq-ok :
    {A B : Type 0} (m : Tx A) (f : A → Tx B) (db : Db) (b : B) (c : Db)
    → (m >>= f) db ≡ ok (b, c)
    → (a : A) × (db' : Db) × (m db ≡ ok (a, db')) × (f a db' ≡ ok (b, c))
>>=-eq-ok {A} {B} m f db b c e = go (m db) refl e
  where
    go :
        (r : Result (A × Db))
        → m db ≡ r
        → elim r as (λ x. Result (B × Db)) [ ok (a, db') ↦ f a db' | err x ↦ err x ] ≡ ok (b, c)
        → (a : A) × (db' : Db) × (m db ≡ ok (a, db')) × (f a db' ≡ ok (b, c))
    go (ok (a, db')) q e = (a, db', q, e)
    go (err x) q e = cc
