-- ===== src/Server/Entry/Limits.antt =====
-- internal/server/channel.go: the limits that an admission keeps, and whom it cuts.
use nox_app.Base.{
  ℕ, ◌≤◌, ◌<◌, ◌≡◌, refl, ap, sym, ◌∙◌, subst, String, Bool, true, false, not, List, [], ◌∷◌, same,
  same→eq, length, length-append, arith,
}
use nox_app.Sql.{count}
use nox_app.Sql.Laws.{count-append}
use nox_app.Server.Entry.{
  PendingChannel, Entry, is_from, has_conn, forget, join, local_source, share_of, count_shed,
  shed_if_cut, at_share, is_full,
}
use nox_app.Server.Entry.Sound.{
  IsSound, forget-IsSound, count-forget, IsFound, length-forget, max_pending-forget,
  max_per_source-forget, max_local-forget,
}
use nox_app.Server.Entry.Admission.{
  IsAdmitted, newcomer, join-IsSound, pending-shed_if_cut, limits-shed_if_cut, IsSound-shed_if_cut,
  below_share, below_max, at_share-none, none_full,
}
use nox_app.Server.Entry.Rounds.{Cuts-Shrunk, Cuts-over, Shrunk}

-- The entry within its limits: the places in all, and each source's share of them.
pub record IsWithinLimits (e : Entry) : Type 0 where
  pub sound : IsSound e
  pub room : length e.pending ≤ e.max_pending
  pub shares : (t : String) → count (is_from t) e.pending ≤ share_of (same t local_source) e
  pub some_place : 0 < e.max_pending
  pub some_per_source : 0 < e.max_per_source
  pub some_local : 0 < e.max_local

-- The entry once there is room in it for a handshake from `source`.
record HasRoom (conn : ℕ) (source : String) (is_local : Bool) (e : Entry) : Type 0 where
  sound : IsSound e
  fresh : count (has_conn conn) e.pending ≡ 0
  place_left : length e.pending < e.max_pending
  share_left : count (is_from source) e.pending < share_of is_local e
  shares : (t : String) → count (is_from t) e.pending ≤ share_of (same t local_source) e
  some_per_source : 0 < e.max_per_source
  some_local : 0 < e.max_local

module _ (conn : ℕ) (source : String) (is_local : Bool) (own all : List ℕ) (e : Entry) where
  max_shed : (shed_if_cut is_local own all e).max_pending ≡ e.max_pending
  unfolding count_shed
  max_shed = limits-shed_if_cut is_local own all e (λ d. d.max_pending) (λ c. refl)

  per_source_shed : (shed_if_cut is_local own all e).max_per_source ≡ e.max_per_source
  unfolding count_shed
  per_source_shed = limits-shed_if_cut is_local own all e (λ d. d.max_per_source) (λ c. refl)

  local_shed : (shed_if_cut is_local own all e).max_local ≡ e.max_local
  unfolding count_shed
  local_shed = limits-shed_if_cut is_local own all e (λ d. d.max_local) (λ c. refl)

  counted_shed :
      (q : PendingChannel → Bool)
      → count q (shed_if_cut is_local own all e).pending ≡ count q e.pending
  counted_shed q = ap (count q) (pending-shed_if_cut is_local own all e)

  HasRoom-shed_if_cut :
      HasRoom conn source is_local e → HasRoom conn source is_local (shed_if_cut is_local own all e)
  HasRoom-shed_if_cut r = record {
    sound = IsSound-shed_if_cut is_local own all e r.sound;
    fresh = omega (arith, r.fresh, counted_shed (has_conn conn));
    place_left =
        omega (arith, r.place_left, ap length (pending-shed_if_cut is_local own all e), max_shed);
    share_left =
        ground (arith, r.share_left, counted_shed (is_from source), per_source_shed, local_shed);
    shares = λ t. ground (arith, r.shares t, counted_shed (is_from t), per_source_shed, local_shed);
    some_per_source = omega (arith, r.some_per_source, per_source_shed);
    some_local = omega (arith, r.some_local, local_shed);
  }

join-IsWithinLimits :
    (conn accepted : ℕ) (source : String) (is_local : Bool) (e : Entry)
    → is_local ≡ same source local_source
    → HasRoom conn source is_local e
    → IsWithinLimits (join conn accepted source is_local e)
unfolding join count
join-IsWithinLimits conn accepted source is_local e here r = record {
  sound = join-IsSound conn accepted source is_local e r.sound r.fresh;
  room = omega (
    arith,
    r.place_left,
    length-append e.pending (newcomer conn accepted source is_local e ∷ []),
  );
  shares = λ t. ground (
    arith,
    r.shares t,
    r.share_left,
    same→eq source t,
    here,
    count-append (is_from t) e.pending (newcomer conn accepted source is_local e ∷ []),
  );
  some_place = omega (arith, r.place_left);
  some_per_source = r.some_per_source;
  some_local = r.some_local;
}

pub share_positive : (e : Entry) (b : Bool) → IsWithinLimits e → 0 < share_of b e
share_positive e true w = w.some_local
share_positive e false w = w.some_per_source

module _ (conn accepted : ℕ) (source : String) (is_local : Bool) (e e' : Entry) (closed : List ℕ)
    (w : IsWithinLimits e) (i : IsAdmitted conn accepted source is_local e e' closed) where
  pub Shrunk-within : Shrunk (λ p. not (is_from source p)) e i.between
  Shrunk-within =
      Cuts-Shrunk (λ p. not (is_from source p)) (is_from source)
        (at_share source (share_of is_local e)) (λ p h. ground arith) w.sound i.within

  pub Shrunk-overall : Shrunk (λ _. false) i.between i.after
  Shrunk-overall =
      Cuts-Shrunk (λ _. false) (λ _. true) is_full (λ p h. refl) Shrunk-within.sound i.overall

  source_below : count (is_from source) i.after.pending < share_of is_local e
  source_below = omega (
    arith,
    below_share source (share_of is_local e) i.between Shrunk-within.sound
        (share_positive e is_local w)
        (Cuts-over (is_from source) (at_share source (share_of is_local e))
          (at_share-none source (share_of is_local e)) w.sound i.within),
    Shrunk-overall.fewer_of (is_from source),
  )

  pub max_after : i.after.max_pending ≡ e.max_pending
  max_after = Shrunk-overall.same_max ∙ Shrunk-within.same_max

  per_source_after : i.after.max_per_source ≡ e.max_per_source
  per_source_after = Shrunk-overall.same_per_source ∙ Shrunk-within.same_per_source

  local_after : i.after.max_local ≡ e.max_local
  local_after = Shrunk-overall.same_local ∙ Shrunk-within.same_local

  module _ (new : count (has_conn conn) e.pending ≡ 0) where
    made_room : HasRoom conn source is_local i.after
    made_room = record {
      sound = Shrunk-overall.sound;
      fresh = omega (
        arith,
        new,
        Shrunk-within.fewer_of (has_conn conn),
        Shrunk-overall.fewer_of (has_conn conn),
      );
      place_left =
          below_max i.after (omega (arith, w.some_place, max_after))
            (Cuts-over (λ _. true) is_full (λ d _. none_full d) Shrunk-within.sound i.overall);
      share_left = ground (arith, source_below, per_source_after, local_after);
      shares = λ t. ground (
        arith,
        w.shares t,
        Shrunk-within.fewer_of (is_from t),
        Shrunk-overall.fewer_of (is_from t),
        per_source_after,
        local_after,
      );
      some_per_source = omega (arith, w.some_per_source, per_source_after);
      some_local = omega (arith, w.some_local, local_after);
    }

    pub IsAdmitted-IsWithinLimits : is_local ≡ same source local_source → IsWithinLimits e'
    IsAdmitted-IsWithinLimits here = subst IsWithinLimits (sym i.joined) (
        join-IsWithinLimits conn accepted source is_local (shed_if_cut is_local i.own i.all i.after)
          here (HasRoom-shed_if_cut conn source is_local i.own i.all i.after made_room))

pub forget-IsWithinLimits :
    (q : PendingChannel → Bool) (p : PendingChannel) (e : Entry)
    → IsFound q p e
    → IsWithinLimits e
    → IsWithinLimits (forget p e)
forget-IsWithinLimits q p e f w = record {
  sound = forget-IsSound q p e f w.sound;
  room = omega (arith, w.room, length-forget q p e f, max_pending-forget p e);
  shares = λ t. ground (
    arith,
    w.shares t,
    count-forget p e (is_from t),
    max_per_source-forget p e,
    max_local-forget p e,
  );
  some_place = omega (arith, w.some_place, max_pending-forget p e);
  some_per_source = omega (arith, w.some_per_source, max_per_source-forget p e);
  some_local = omega (arith, w.some_local, max_local-forget p e);
}
