-- ===== src/Tx.antt =====
-- A transaction of internal/store: it reads and writes the database, and a refusal rolls back
-- whatever it had written.
pub mod Within
use nox_app.Base.{Bool, true, false}
use nox_app.Db.{Db}

-- The sentinel errors of the package, and `internal` for a statement that the database refuses.
pub data Error : Type 0 where
  token_invalid token_expired device_unknown request_not_found : Error
  name_taken chat_not_found file_not_found file_not_ready file_taken internal : Error
  no_server_identity unknown_address_kind : Error

pub data Result {ℓ} (A : Type ℓ) : Type ℓ where
  ok : A → Result A
  err : Error → Result A

abbrev pub Tx : Type 0 → Type 0
Tx A = Db → Result (A × Db)

abbrev pub pure : {A : Type 0} → A → Tx A
pure a db = ok (a, db)

abbrev pub fail : {A : Type 0} → Error → Tx A
fail e db = err e

infixl 5 ◌>>=◌ ◌>>◌
abbrev pub ◌>>=◌ : {A B : Type 0} → Tx A → (A → Tx B) → Tx B
◌>>=◌ m f db = elim (m db) [ ok (a, db') ↦ f a db' | err e ↦ err e ]

abbrev pub ◌>>◌ : {B : Type 0} → Tx (Unit {0}) → Tx B → Tx B
m >> k = m >>= λ _. k

abbrev pub read : {A : Type 0} → (Db → A) → Tx A
read f db = ok (f db, db)

abbrev pub write : (Db → Db) → Tx (Unit {0})
write f db = ok (tt, f db)

-- A guard that refuses with `e`.
abbrev pub require : Bool → Error → Tx (Unit {0})
require true e = pure tt
require false e = fail e

abbrev pub settle : {A : Type 0} → Db → Result (A × Db) → Db × Result A
settle db (ok (a, db')) = (db', ok a)
settle db (err e) = (db, err e)

-- What the caller of a store method sees: the database after it, and its answer. The deferred
-- Rollback leaves the database as it was when the method returns an error.
abbrev pub run : {A : Type 0} → Tx A → Db → Db × Result A
run m db = settle db (m db)
