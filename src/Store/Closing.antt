-- ===== src/Store/Closing.antt =====
-- internal/store/requests.go: the loops that close the requests of a list.
use nox_app.Base.{
  ℕ, String, ◌≡◌, sym, ◌∙◌, Bool, true, false, inl, inr, List, [], ◌∷◌, arith, All, Bool-cases,
  same_refl,
}
use mathlib.Core.Bool.{false≢true}
use nox_app.Sql.Laws.{All-update, All-mono, All-both, touched}
use nox_app.Sql.Members.{All-Has, All-of_Has, Has-query}
use nox_app.Db.{Db, Outcome, RequestRow}
use nox_app.Tx.{ok, pure, ◌>>=◌}
use nox_app.Tx.Within.{>>=-eq-ok, moved}
use nox_app.Store.Requests.{
  PairRequest, has_id, waiting, close_request, close_each, overdue_outcome, scan_request, sooner,
  list_requests,
}
use nox_app.Store.Effects.{after_close, closable, closed_row}

-- What holds of the requests that still wait.
abbrev pub Waits : (RequestRow → Type 0) → RequestRow → Type 0
Waits Q r = waiting r ≡ true → Q r

abbrev pub WaitingAll : (RequestRow → Type 0) → Db → Type 0
WaitingAll Q db = All (Waits Q) db.requests

-- The row is not one of these requests.
abbrev pub Apart : List PairRequest → RequestRow → Type 0
Apart ps r = All (λ p. has_id p.request_id r ≡ false) ps

after_row :
    (Q : RequestRow → Type 0) (id : String) (outcome : Outcome) (now : ℕ) (r : RequestRow)
    → Waits Q r
    → Waits (λ x. Q x × (has_id id x ≡ false)) (touched (closable id) (closed_row outcome now) r)
after_row Q id outcome now r q = elim (Bool-cases (closable id r)) [
  | inl e ↦ rw e (λ h. cc)
  | inr e ↦ rw e (λ h. (q h, ground arith))
]

close_request-WaitingAll :
    (Q : RequestRow → Type 0) (r : PairRequest) (outcome : Outcome) (now : ℕ) (db db' : Db)
    (a : PairRequest)
    → close_request r outcome now db ≡ ok (a, db')
    → WaitingAll Q db
    → WaitingAll (λ x. Q x × (has_id r.request_id x ≡ false)) db'
close_request-WaitingAll Q r outcome now db db' a e v =
    moved (WaitingAll (λ x. Q x × (has_id r.request_id x ≡ false)))
      (after_close db db' r outcome now a e).0
      (All-update (Waits Q) (Waits (λ x. Q x × (has_id r.request_id x ≡ false)))
        (closable r.request_id) (closed_row outcome now) db.requests
        (after_row Q r.request_id outcome now) v)

-- After the loop, what waited still does as it was, and none of the listed requests waits.
pub close_each-WaitingAll :
    (Q : RequestRow → Type 0) (o : Outcome) (now : ℕ) (rs : List PairRequest) (db db' : Db)
    (a : List PairRequest)
    → close_each o now rs db ≡ ok (a, db')
    → WaitingAll Q db
    → WaitingAll (λ x. Q x × Apart rs x) db'
unfolding close_each
close_each-WaitingAll Q o now [] db db' a e v =
    moved (WaitingAll (λ x. Q x × Apart [] x)) {a = db'} {b = db} (ground arith)
      (All-mono (Waits Q) (Waits (λ x. Q x × Apart [] x)) db.requests (λ x w h. (w h, tt)) v)
close_each-WaitingAll Q o now (r ∷ rs) db db' a e v =
    let (r', db₁, e₁, rest) =
      >>=-eq-ok (close_request r (overdue_outcome o r.expires_at now) now)
        (λ closed. close_each o now rs >>= λ more. pure (closed ∷ more)) db a db' e in
    let (rs', db₂, e₂, last) =
      >>=-eq-ok (close_each o now rs) (λ more. pure (r' ∷ more)) db₁ a db' rest in
    let v₁ = close_request-WaitingAll Q r (overdue_outcome o r.expires_at now) now db db₁ r' e₁ v in
    let v₂ =
      close_each-WaitingAll (λ x. Q x × (has_id r.request_id x ≡ false)) o now rs db₁ db₂ rs' e₂
        v₁ in
    moved (WaitingAll (λ x. Q x × Apart (r ∷ rs) x)) {a = db'} {b = db₂} (ground arith) (
      All-mono (Waits (λ x. (Q x × (has_id r.request_id x ≡ false)) × Apart rs x))
        (Waits (λ x. Q x × Apart (r ∷ rs) x)) db₂.requests
        (λ x w h. let u = w h in (u.0.0, (u.0.1, u.1))) v₂)

-- A row that is apart from all that a query lists does not meet its test.
abbrev Unlisted : (RequestRow → Bool) → Db → RequestRow → Type 0
Unlisted p db r = Apart (list_requests p db) r → p r ≡ false

listed : (p : RequestRow → Bool) (db : Db) → All (Unlisted p db) db.requests
unfolding list_requests
listed p db = All-of_Has (Unlisted p db) db.requests λ x m apart. elim (Bool-cases (p x)) [
  | inl h ↦
      let met =
        All-Has (λ q. has_id q.request_id x ≡ false) (Has-query p sooner scan_request x m h)
          apart in
      absurd (false≢true (sym met ∙ same_refl x.request_id))
  | inr h ↦ h
]

-- Closing every request that a query lists: none that meets its test waits any more.
pub close_listed :
    (Q : RequestRow → Type 0) (p : RequestRow → Bool) (o : Outcome) (now : ℕ) (db db' : Db)
    (a : List PairRequest)
    → close_each o now (list_requests p db) db ≡ ok (a, db')
    → WaitingAll Q db
    → WaitingAll (λ x. Q x × (p x ≡ false)) db'
close_listed Q p o now db db' a e v =
    let both = All-both (Waits Q) (Unlisted p db) db.requests v (listed p db) in
    let before =
      All-mono (λ x. Waits Q x × Unlisted p db x) (Waits (λ x. Q x × Unlisted p db x)) db.requests
        (λ x w h. (w.0 h, w.1)) both in
    let after =
      close_each-WaitingAll (λ x. Q x × Unlisted p db x) o now (list_requests p db) db db' a e
        before in
    All-mono (Waits (λ x. (Q x × Unlisted p db x) × Apart (list_requests p db) x))
      (Waits (λ x. Q x × (p x ≡ false))) db'.requests (λ x w h. let u = w h in (u.0.0, u.0.1 u.1))
      after
