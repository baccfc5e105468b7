-- ===== src/Store/Journal.antt =====
-- internal/store/store.go: the events table, and what a client reads of it.
use nox_app.Base.{ℕ, ◌+◌, Bool, true, false, List, [], ◌∷◌, ◌++◌, ltb, ◌==◌}
use nox_app.Sql.{update, where_rows, order_by}
use nox_app.Db.{Db, EventRow, EventType, Payload}
use nox_app.Tx.{Tx, pure, ◌>>=◌, ◌>>◌, read, write}

-- An INSERT into events; AUTOINCREMENT gives the next number, also after rows were deleted.
unfoldable pub insert_event : EventType → Payload → Tx ℕ
insert_event type payload = do
  last ← read (λ db. db.last_seq)
  let seq = last + 1
  write λ db. record db {
    events = db.events ++ record { seq = seq; type = type; payload = payload } ∷ [];
    last_seq = seq;
  }
  pure seq

abbrev pub is_event : ℕ → EventRow → Bool
is_event seq e = e.seq == seq

unfoldable pub fill_event : ℕ → Payload → Tx (Unit {0})
fill_event seq payload = write λ db. record db {
  events = update (is_event seq) (λ e. record e { payload = payload }) db.events;
}

-- COALESCE(MAX(seq), 0).
unfoldable pub greatest : List EventRow → ℕ
greatest [] = 0
greatest (e ∷ es) = let rest = greatest es in elim (ltb rest e.seq) [ true ↦ e.seq | false ↦ rest ]

unfoldable pub cursor : Db → ℕ
cursor db = greatest db.events

abbrev pub earlier : EventRow → EventRow → Bool
earlier a b = ltb a.seq b.seq

unfoldable pub events_since : ℕ → Db → List EventRow
events_since since db = order_by earlier (where_rows (λ e. ltb since e.seq) db.events)
