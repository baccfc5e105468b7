-- ===== src/Store/Sent/Announced.antt =====
-- internal/store/store.go: what a caller that follows the journal reads after a send.
use nox_app.Base.{
  ℕ, ◌+◌, ◌≤◌, String, ◌≡◌, sym, subst, true, Option, none, some, List, [], ◌∷◌, ◌++◌, arith, All,
  ltb,
}
use nox_app.Sql.{update, where_rows}
use nox_app.Sql.Laws.{order_by-one}
use nox_app.Db.{Db, Message, EventRow, message_new, of_message}
use nox_app.Tx.{ok}
use nox_app.Store.Identity.{Entropy, Identity}
use nox_app.Store.Journal.{greatest, cursor, events_since, is_event, earlier}
use nox_app.Store.Chats.{Made}
use nox_app.Store.Messages.{send_message, message_by_client_id}
use nox_app.Store.Sent.{after_send, fresh_event}

-- No event is numbered above the counter.
abbrev pub IsNumbered : Db → Type 0
IsNumbered db = All (λ e. e.seq ≤ db.last_seq) db.events

-- The rows above the greatest number, when a row above the counter is appended and filled.
above :
    (fill : EventRow → EventRow) (e : EventRow) (last bound : ℕ) (es : List EventRow)
    → e.seq ≡ last + 1
    → greatest es ≤ bound
    → bound ≤ last
    → All (λ x. x.seq ≤ last) es
    → where_rows (λ x. ltb bound x.seq) (update (is_event (last + 1)) fill (es ++ e ∷ []))
      ≡ where_rows (λ x. ltb bound x.seq) (fill e ∷ [])
unfolding where_rows update greatest
above fill e last bound [] q g b a = ground arith
above fill e last bound (x ∷ es) q g b a = ground (arith, above fill e last bound es q)

greatest_bound : (es : List EventRow) (last : ℕ) → All (λ x. x.seq ≤ last) es → greatest es ≤ last
unfolding greatest
greatest_bound [] last a = omega arith
greatest_bound (x ∷ es) last a = ground (arith, greatest_bound es last)

next_event :
    (v : Message) (db db' : Db)
    → v.seq ≡ db.last_seq + 1
    → greatest db.events ≤ db.last_seq
    → IsNumbered db
    → db'.events
      ≡ update
          (is_event v.seq)
          (λ e. record e { payload = of_message v })
          (db.events ++ fresh_event v.seq ∷ [])
    → events_since (cursor db) db'
      ≡ record { seq = v.seq; type = message_new; payload = of_message v } ∷ []
unfolding events_since cursor where_rows
next_event v db db' q low n rows =
    let fill : EventRow → EventRow = λ e. record e { payload = of_message v } in
    let kept =
      above fill (fresh_event v.seq) db.last_seq (greatest db.events) db.events q (omega arith) low
        n in
    let kept' =
      subst
        (λ k.
          where_rows (λ x. ltb (greatest db.events) x.seq)
            (update (is_event k) fill (db.events ++ fresh_event v.seq ∷ []))
          ≡ where_rows (λ x. ltb (greatest db.events) x.seq) (fill (fresh_event v.seq) ∷ []))
        (sym q) kept in
    let higher : ltb (greatest db.events) v.seq ≡ true = ground arith in
    rw (rows, kept', higher)
      (order_by-one earlier (record { seq = v.seq; type = message_new; payload = of_message v }))

module _ (text_body : String → Option String) (rnd : Entropy) (chat_id client : String)
    (author : Identity) (body file_id : String) (now : ℕ) where
  -- Where no event is numbered above the counter and no message has the send key, a send that
  -- succeeds gives an event, and a reader who stood at the cursor before it reads that event and
  -- no other.
  pub events_since-send_message :
      (db db' : Db) (m : Made _)
      → IsNumbered db
      → message_by_client_id author.user_id client db ≡ none
      → send_message text_body rnd chat_id client author body file_id now db ≡ ok (m, db')
      → (e : EventRow) × (m.event ≡ some e) × (events_since (cursor db) db' ≡ e ∷ [])
  unfolding events_since cursor where_rows
  events_since-send_message db db' m n unsent e =
      let r = after_send text_body rnd chat_id client author body file_id now db db' m unsent e in
      let low = greatest_bound db.events db.last_seq n in
      (_, r.announced, next_event m.value db db' r.seq low n r.events)
