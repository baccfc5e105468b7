-- ===== src/Server/Entry/Promises.antt =====
-- internal/server/channel.go: what the entry promises, whatever arrives at it.
use nox_app.Base.{
  ℕ, ◌≤◌, ◌≡◌, refl, String, Bool, not, some, List, inl, inr, same, arith, Option-cases,
}
use nox_app.Sql.{select, count, where_rows}
use nox_app.Server.Entry.{Entry, is_from, has_conn, held_by, local_source, share_of, admit, leave}
use nox_app.Server.Entry.Admission.{admit-IsAdmitted}
use nox_app.Server.Entry.Limits.{IsWithinLimits, IsAdmitted-IsWithinLimits, forget-IsWithinLimits}
use nox_app.Server.Entry.Own.{IsAdmitted-others}
use nox_app.Server.Entry.{new_entry}

-- The entry through time: a connection that is not in it arrives, or one's handshake is over.
pub data Reached : Entry → Type 0 where
  opened : (budget : ℕ) → Reached (new_entry budget)
  arrived :
      (conn accepted : ℕ) (source : String) {e : Entry} {e' : Entry} {closed : List ℕ}
      → Reached e
      → count (has_conn conn) e.pending ≡ 0
      → admit conn accepted source (same source local_source) e ≡ some (e', closed)
      → Reached e'
  over : (conn : ℕ) {e : Entry} → Reached e → Reached (leave conn e).0

leave-IsWithinLimits : (conn : ℕ) (e : Entry) → IsWithinLimits e → IsWithinLimits (leave conn e).0
unfolding leave
leave-IsWithinLimits conn e w = elim (Option-cases (select (has_conn conn) e.pending)) [
  | inl n ↦ rw (n, leave) w
  | inr (p, f) ↦ rw (f, leave) (forget-IsWithinLimits (has_conn conn) p e f w)
]

new_entry-IsWithinLimits : (budget : ℕ) → IsWithinLimits (new_entry budget)
unfolding count held_by
new_entry-IsWithinLimits budget = record {
  sound = record { counts = λ t. refl; once = λ c. omega arith };
  room = omega arith;
  shares = λ t. omega arith;
  some_place = omega arith;
  some_per_source = omega arith;
  some_local = omega arith;
}

-- In every entry that arrivals and departures lead to, no connection is pending twice, the count of
-- each source is the number of its handshakes pending, no source has more than its share of them
-- (this machine its own share), and there are no more than the limit in all.
pub Reached-IsWithinLimits : (e : Entry) → Reached e → IsWithinLimits e
Reached-IsWithinLimits e (opened budget) = new_entry-IsWithinLimits budget
Reached-IsWithinLimits e (arrived conn accepted source {e = d} {closed = closed} r new h) =
    IsAdmitted-IsWithinLimits conn accepted source (same source local_source) d e closed
      (Reached-IsWithinLimits d r)
      (admit-IsAdmitted conn accepted source (same source local_source) d e closed h) new refl
Reached-IsWithinLimits e (over conn {e = d} r) =
    leave-IsWithinLimits conn d (Reached-IsWithinLimits d r)

-- A source that is at its share when a connection from it arrives makes the room within itself: the
-- handshakes of every other source stay as they are, in their order.
pub admit_own_share :
    (conn accepted : ℕ) (source : String) (is_local : Bool) (e e' : Entry) (closed : List ℕ)
    → IsWithinLimits e
    → share_of is_local e ≤ count (is_from source) e.pending
    → admit conn accepted source is_local e ≡ some (e', closed)
    → where_rows (λ p. not (is_from source p)) e'.pending
      ≡ where_rows (λ p. not (is_from source p)) e.pending
admit_own_share conn accepted source is_local e e' closed w full h =
    IsAdmitted-others conn accepted source is_local e e' closed w
      (admit-IsAdmitted conn accepted source is_local e e' closed h) full
