-- ===== src/Store/Sweep.antt =====
-- internal/store/requests.go: the sweep of the overdue requests.
use nox_app.Base.{ℕ, ◌≡◌, Bool, false, inl, inr, List, [], ◌∷◌, arith, All, Bool-cases, ◌==◌}
use nox_app.Sql.{count}
use nox_app.Sql.Laws.{All-mono}
use nox_app.Db.{Db, RequestRow, expired}
use nox_app.Tx.{ok}
use nox_app.Tx.Within.{moved}
use nox_app.Store.Requests.{PairRequest, due, waiting, expire_pair_requests}
use nox_app.Store.Closing.{Waits, close_listed}

none_met :
    (p : RequestRow → Bool) (rs : List RequestRow) → count p rs ≡ 0 → All (λ r. p r ≡ false) rs
unfolding count
none_met p [] e = tt
none_met p (r ∷ rs) e = ground (arith, none_met p rs)

any_row : (rs : List RequestRow) → All (Waits (λ r. Unit {0})) rs
any_row [] = tt
any_row (r ∷ rs) = (λ h. tt, any_row rs)

undue :
    (now : ℕ) (r : RequestRow) → Waits (λ x. Unit {0} × (due now x ≡ false)) r → due now r ≡ false
undue now r w = elim (Bool-cases (waiting r)) [ inl h ↦ (w h).1 | inr h ↦ ground arith ]

-- After a sweep that succeeds, over the database that the read pool had shown, no request both
-- waits and is past its deadline.
pub expire_pair_requests-All :
    (db db' : Db) (now : ℕ) (closed : List PairRequest)
    → expire_pair_requests db now db ≡ ok (closed, db')
    → All (λ r. due now r ≡ false) db'.requests
unfolding expire_pair_requests
expire_pair_requests-All db db' now closed e =
    elim (Bool-cases (count (due now) db.requests == 0)) [
      | inl h ↦
          moved (λ d. All (λ r. due now r ≡ false) d.requests) {a = db'} {b = db} (ground arith)
            (none_met (due now) db.requests (ground arith))
      | inr h ↦
          All-mono (Waits (λ x. Unit {0} × (due now x ≡ false))) (λ r. due now r ≡ false)
            db'.requests (undue now)
            (close_listed (λ r. Unit {0}) (due now) expired now db db' closed (ground arith)
              (any_row db.requests))
    ]
