-- ===== src/Server/Entry/Sound.antt =====
-- internal/server/channel.go: what mu guards, kept in step: bySource counts the pending handshakes
-- of each source, and no connection is pending twice.
use nox_app.Base.{
  ℕ, suc, ◌≤◌, ◌<◌, ◌≡◌, refl, String, Bool, true, false, some, same→eq, length, arith,
}
use nox_app.Sql.{select, count, where_rows}
use nox_app.Sql.Counts.{count-delete-le}
use nox_app.Server.Entry.{PendingChannel, Entry, is_from, has_conn, held_by, forget, oldest}
use nox_app.Server.Entry.Laws.{
  held_by-drop_one, length-delete, count-delete_one, where_rows-delete_one, select_again,
  count_where,
}

pub record IsSound (e : Entry) : Type 0 where
  pub counts : (t : String) → held_by t e.by_source ≡ count (is_from t) e.pending
  pub once : (c : ℕ) → count (has_conn c) e.pending ≤ 1

-- `p` is the handshake in `e` that a walk with the test `q` finds first.
abbrev pub IsFound : (PendingChannel → Bool) → PendingChannel → Entry → Type 0
IsFound q p e = select q e.pending ≡ some p

own_conn : (p : PendingChannel) → has_conn p.conn p ≡ true
own_conn p = ground arith

module _ (q : PendingChannel → Bool) (p : PendingChannel) (e : Entry) (w : IsFound q p e) where
  pub length-forget : length (forget p e).pending < length e.pending
  unfolding forget
  length-forget = omega (
    arith,
    length-delete (has_conn p.conn) e.pending,
    count_where (has_conn p.conn) q e.pending p w (own_conn p),
  )

  module _ (s : IsSound e) where
    by_conn : IsFound (has_conn p.conn) p e
    by_conn = select_again (has_conn p.conn) q e.pending p w (own_conn p) (s.once p.conn)

    pub length-forget_one : suc (length (forget p e).pending) ≡ length e.pending
    unfolding forget
    length-forget_one = omega (
      arith,
      length-delete (has_conn p.conn) e.pending,
      count_where (has_conn p.conn) q e.pending p w (own_conn p),
      s.once p.conn,
    )

    pub forget-IsSound : IsSound (forget p e)
    unfolding forget
    forget-IsSound = record {
      counts = λ t. ground (
        arith,
        held_by-drop_one p.source t e.by_source,
        s.counts t,
        s.counts p.source,
        same→eq p.source t,
        count-delete_one (has_conn p.conn) (is_from t) e.pending p by_conn (s.once p.conn),
      );
      once = λ c. omega (arith, s.once c, count-delete-le (has_conn c) (has_conn p.conn) e.pending);
    }

    -- The handshakes that a test leaves out of the cut are all still there, in their order.
    pub forget_others :
        (k : PendingChannel → Bool)
        → k p ≡ false
        → where_rows k (forget p e).pending ≡ where_rows k e.pending
    unfolding forget
    forget_others k n =
        where_rows-delete_one (has_conn p.conn) k e.pending p by_conn (s.once p.conn) n

pub IsFound-oldest :
    (p : PendingChannel) (e : Entry) → oldest e.pending ≡ some p → IsFound (λ _. true) p e
unfolding select
IsFound-oldest p e w = ground arith

module _ (p : PendingChannel) (e : Entry) where
  pub count-forget : (q : PendingChannel → Bool) → count q (forget p e).pending ≤ count q e.pending
  unfolding forget
  count-forget q = count-delete-le q (has_conn p.conn) e.pending

  pub max_pending-forget : (forget p e).max_pending ≡ e.max_pending
  unfolding forget
  max_pending-forget = refl

  pub max_per_source-forget : (forget p e).max_per_source ≡ e.max_per_source
  unfolding forget
  max_per_source-forget = refl

  pub max_local-forget : (forget p e).max_local ≡ e.max_local
  unfolding forget
  max_local-forget = refl
