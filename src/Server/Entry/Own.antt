-- ===== src/Server/Entry/Own.antt =====
-- internal/server/channel.go: a source at its share makes room within itself.
use nox_app.Base.{
  append-nil, ℕ, ◌≤◌, ◌<◌, ◌≡◌, refl, ap, ◌∙◌, String, Bool, true, false, not, none, List, [], ◌∷◌,
  ◌++◌, inl, inr, same_refl, length, arith,
}
use nox_app.Sql.{select, count, where_rows}
use nox_app.Server.Entry.{
  PendingChannel, Entry, is_from, join, share_of, shed_if_cut, at_share, is_full,
}
use nox_app.Server.Entry.Sound.{IsSound, forget-IsSound, length-forget}
use nox_app.Server.Entry.Admission.{IsAdmitted, newcomer, pending-shed_if_cut, at_share-none}
use nox_app.Server.Entry.Rounds.{stop, cut, Cuts, Cuts-length}
use nox_app.Server.Entry.Limits.{IsWithinLimits, Shrunk-within, share_positive}

where_rows-append {ℓ} :
    {A : Type ℓ} (p : A → Bool) (xs ys : List A)
    → where_rows p (xs ++ ys) ≡ where_rows p xs ++ where_rows p ys
unfolding where_rows
where_rows-append p [] ys = refl
where_rows-append p (x ∷ xs) ys = ground (arith, where_rows-append p xs ys)

-- A limit that is passed costs a handshake, and one that is kept costs none.
Cuts_over :
    (q : PendingChannel → Bool) (over : Entry → Bool) {e e' : Entry} {cut : List ℕ}
    → ((d : Entry) → IsSound d → select q d.pending ≡ none → over d ≡ false)
    → IsSound e
    → over e ≡ true
    → Cuts q over e cut e'
    → length e'.pending < length e.pending
Cuts_over q over empty s o (stop e (inl n)) = ground arith
Cuts_over q over empty s o (stop e (inr n)) = ground (arith, empty e s n)
Cuts_over q over empty s o (cut p e _ w more) =
    omega (arith, Cuts-length q over (forget-IsSound q p e w s) more, length-forget q p e w)

Cuts_kept :
    (q : PendingChannel → Bool) (over : Entry → Bool) {e e' : Entry} {cut : List ℕ}
    → over e ≡ false
    → Cuts q over e cut e'
    → e' ≡ e
Cuts_kept q over n (stop e _) = refl
Cuts_kept q over n (cut p e o w more) = ground arith

join_others :
    (conn accepted : ℕ) (source : String) (is_local : Bool) (e : Entry)
    → where_rows (λ p. not (is_from source p)) (join conn accepted source is_local e).pending
      ≡ where_rows (λ p. not (is_from source p)) e.pending
unfolding join where_rows
join_others conn accepted source is_local e = ground (
  arith,
  same_refl source,
  append-nil (where_rows (λ p. not (is_from source p)) e.pending),
  where_rows-append (λ p. not (is_from source p)) e.pending
      (newcomer conn accepted source is_local e ∷ []),
)

at_share_of :
    (source : String) (share : ℕ) (e : Entry)
    → IsSound e
    → 0 < share
    → share ≤ count (is_from source) e.pending
    → at_share source share e ≡ true
at_share_of source share e s h n = ground (arith, s.counts source)

not_full : (e : Entry) → length e.pending < e.max_pending → is_full e ≡ false
not_full e h = ground arith

module _ (conn accepted : ℕ) (source : String) (is_local : Bool) (e e' : Entry) (closed : List ℕ)
    (w : IsWithinLimits e) (i : IsAdmitted conn accepted source is_local e e' closed)
    (full : share_of is_local e ≤ count (is_from source) e.pending) where
  shrank : length i.between.pending < length e.pending
  shrank =
      Cuts_over (is_from source) (at_share source (share_of is_local e))
        (at_share-none source (share_of is_local e)) w.sound
        (at_share_of source (share_of is_local e) e w.sound (share_positive e is_local w) full)
        i.within

  none_evicted : i.after ≡ i.between
  none_evicted =
      Cuts_kept (λ _. true) is_full
        (not_full i.between (
          omega (
            arith,
            shrank,
            w.room,
            (Shrunk-within conn accepted source is_local e e' closed w i).same_max,
          )))
        i.overall

  pub IsAdmitted-others :
      where_rows (λ p. not (is_from source p)) e'.pending
      ≡ where_rows (λ p. not (is_from source p)) e.pending
  IsAdmitted-others =
      ap (λ d. where_rows (λ p. not (is_from source p)) d.pending) i.joined
      ∙ join_others conn accepted source is_local (shed_if_cut is_local i.own i.all i.after)
      ∙ ap (where_rows (λ p. not (is_from source p)))
          (pending-shed_if_cut is_local i.own i.all i.after)
      ∙ ap (λ d. where_rows (λ p. not (is_from source p)) d.pending) none_evicted
      ∙ (Shrunk-within conn accepted source is_local e e' closed w i).others
