-- ===== src/Store/Starts/Final.antt =====
-- internal/store: what is closed or spent, through calls and starts.
use nox_app.Base.{ℕ, String, ◌≡◌, false, Option, List}
use nox_app.Db.{Db, Outcome}
use nox_app.Store.Finality.{IsClosed, IsSpent, same_requests, same_tokens}
use nox_app.Store.Finality.Requests
use nox_app.Store.Finality.Tokens
use nox_app.Store.Starts.{Event, life, is_rekeyed}
use nox_app.Store.Starts.Kept.{ensure-tables, ensure_journal-tables, life-keeps}

-- A token that is spent stays spent, at the second and by the device that it was, through every
-- history of pairing calls and starts in which no start replaces the machine's public key.
pub life-IsSpent :
    (t : String) (at : ℕ) (by : Option String) (db : Db) (es : List Event)
    → is_rekeyed db es ≡ false
    → IsSpent t at by db
    → IsSpent t at by (life db es)
life-IsSpent t at by db es h v =
    life-keeps (IsSpent t at by) (Tokens.writes_keep t at by)
      (λ codec keys d. record {
        at = λ k d' e. same_tokens t at by d d' (ensure-tables codec keys d d' k e).0;
      })
      (λ rnd d. record {
        at = λ a d' e. same_tokens t at by d d' (ensure_journal-tables rnd d d' a e).0;
      })
      db es h v

-- A request that is closed keeps its outcome through every history of pairing calls and starts in which no
-- start replaces the machine's public key.
pub life-IsClosed :
    (id : String) (o : Outcome) (db : Db) (es : List Event)
    → is_rekeyed db es ≡ false
    → IsClosed id o db
    → IsClosed id o (life db es)
life-IsClosed id o db es h v =
    life-keeps (IsClosed id o) (Requests.writes_keep id o)
      (λ codec keys d. record {
        at = λ k d' e. same_requests id o d d' (ensure-tables codec keys d d' k e).1;
      })
      (λ rnd d. record {
        at = λ a d' e. same_requests id o d d' (ensure_journal-tables rnd d d' a e).1;
      })
      db es h v
