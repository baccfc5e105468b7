-- ===== src/Server/Entry/Rounds.antt =====
-- internal/server/channel.go: the two loops of admit, one round at a time.
use nox_app.Base.{
  some_inj, ℕ, zero, suc, ◌+◌, ◌≤◌, ◌<◌, ◌≡◌, String, Bool, true, false, none, some, List, [], ◌∷◌,
  inl, inr, length, arith, Bool-cases, Option-cases, is_none, refl, ◌∙◌, subst, ◌⊎◌,
}
use nox_app.Server.Entry.{
  PendingChannel, Entry, is_from, forget, oldest_from, oldest, cut_in_source, evict, at_share,
  is_full,
}
use nox_app.Sql.{select, count, where_rows}
use nox_app.Sql.Laws.{select-meets}
use nox_app.Server.Entry.Sound.{
  IsSound, IsFound, IsFound-oldest, length-forget, forget-IsSound, forget_others, length-forget_one,
  count-forget, max_pending-forget, max_per_source-forget, max_local-forget,
}

-- Enough rounds: one for each handshake, and the one that finds the limit kept.
pub cut_in_source-returns :
    (fuel : ℕ) (source : String) (share : ℕ) (e : Entry)
    → length e.pending < fuel
    → is_none (cut_in_source fuel source share e) ≡ false
unfolding cut_in_source oldest_from
cut_in_source-returns zero source share e h = ground arith
cut_in_source-returns (suc fuel) source share e h = elim (Option-cases (oldest_from source e)) [
  | inl n ↦ ground arith
  | inr (p, w) ↦ ground (
    arith,
    cut_in_source-returns fuel source share (forget p e),
    length-forget (is_from source) p e w,
  )
]

pub evict-returns :
    (fuel : ℕ) (e : Entry) → length e.pending < fuel → is_none (evict fuel e) ≡ false
unfolding evict
evict-returns zero e h = ground arith
evict-returns (suc fuel) e h = elim (Option-cases (oldest e.pending)) [
  | inl n ↦ ground arith
  | inr (p, w) ↦
      ground (
        arith,
        evict-returns fuel (forget p e),
        length-forget (λ _. true) p e (IsFound-oldest p e w),
      )
]

-- Rounds that each cut the handshake that the walk `q` finds first, and the connections they close,
-- until the limit is kept or the walk finds none.
pub data Cuts (q : PendingChannel → Bool) (over : Entry → Bool)
    : Entry → List ℕ → Entry → Type 0 where
  stop : (e : Entry) → (over e ≡ false) ⊎ (select q e.pending ≡ none) → Cuts q over e [] e
  cut :
      (p : PendingChannel) (e : Entry) {rest : List ℕ} {e' : Entry}
      → over e ≡ true
      → IsFound q p e
      → Cuts q over (forget p e) rest e'
      → Cuts q over e (p.conn ∷ rest) e'

-- What rounds that cut no handshake the test `keep` holds of have done to the entry.
pub record Shrunk (keep : PendingChannel → Bool) (e e' : Entry) : Type 0 where
  pub sound : IsSound e'
  pub fewer : length e'.pending ≤ length e.pending
  pub fewer_of : (q : PendingChannel → Bool) → count q e'.pending ≤ count q e.pending
  pub others : where_rows keep e'.pending ≡ where_rows keep e.pending
  pub same_max : e'.max_pending ≡ e.max_pending
  pub same_per_source : e'.max_per_source ≡ e.max_per_source
  pub same_local : e'.max_local ≡ e.max_local

module _ (keep : PendingChannel → Bool) where
  Shrunk-refl : (e : Entry) → IsSound e → Shrunk keep e e
  Shrunk-refl e s = record {
    sound = s;
    fewer = omega arith;
    fewer_of = λ q. omega arith;
    others = refl;
    same_max = refl;
    same_per_source = refl;
    same_local = refl;
  }

  Shrunk-trans : {a b c : Entry} → Shrunk keep a b → Shrunk keep b c → Shrunk keep a c
  Shrunk-trans s t = record {
    sound = t.sound;
    fewer = omega (arith, s.fewer, t.fewer);
    fewer_of = λ q. omega (arith, s.fewer_of q, t.fewer_of q);
    others = t.others ∙ s.others;
    same_max = t.same_max ∙ s.same_max;
    same_per_source = t.same_per_source ∙ s.same_per_source;
    same_local = t.same_local ∙ s.same_local;
  }

  Shrunk-forget :
      (q : PendingChannel → Bool) (p : PendingChannel) (e : Entry)
      → IsFound q p e
      → keep p ≡ false
      → IsSound e
      → Shrunk keep e (forget p e)
  Shrunk-forget q p e w n s = record {
    sound = forget-IsSound q p e w s;
    fewer = omega (arith, length-forget q p e w);
    fewer_of = λ k. count-forget p e k;
    others = forget_others q p e w s keep n;
    same_max = max_pending-forget p e;
    same_per_source = max_per_source-forget p e;
    same_local = max_local-forget p e;
  }

  -- Rounds that each cut the handshake that the walk `q` finds first.
  pub Cuts-Shrunk :
      (q : PendingChannel → Bool) (over : Entry → Bool) {e e' : Entry} {cut : List ℕ}
      → ((p : PendingChannel) → q p ≡ true → keep p ≡ false)
      → IsSound e
      → Cuts q over e cut e'
      → Shrunk keep e e'
  Cuts-Shrunk q over apart s (stop e _) = Shrunk-refl e s
  Cuts-Shrunk q over apart s (cut p e o w more) =
      let one = Shrunk-forget q p e w (apart p (select-meets q e.pending p w)) s in
      Shrunk-trans one (Cuts-Shrunk q over apart one.sound more)

-- The rounds of a result are the rounds of whatever equals it.
Cuts-some :
    {q : PendingChannel → Bool} {over : Entry → Bool} {e : Entry} (r r' : Entry × List ℕ)
    → Cuts q over e r.1 r.0
    → some r ≡ some r'
    → Cuts q over e r'.1 r'.0
Cuts-some {q} {over} {e} r r' c h = subst (λ z. Cuts q over e z.1 z.0) (some_inj r r' h) c

-- A run of the loop within a source is such rounds.
pub cut_in_source-Cuts :
    (fuel : ℕ) (source : String) (share : ℕ) (e e' : Entry) (own : List ℕ)
    → cut_in_source fuel source share e ≡ some (e', own)
    → Cuts (is_from source) (at_share source share) e own e'
unfolding cut_in_source oldest_from
cut_in_source-Cuts zero source share e e' own h = ground arith
cut_in_source-Cuts (suc fuel) source share e e' own h =
    elim (Bool-cases (at_share source share e)) [
      | inr n ↦ Cuts-some (e, []) (e', own) (stop e (inl n)) (ground arith)
      | inl y ↦ elim (Option-cases (oldest_from source e)) [
        | inl n ↦ Cuts-some (e, []) (e', own) (stop e (inr n)) (ground arith)
        | inr (p, w) ↦ elim (Option-cases (cut_in_source fuel source share (forget p e))) [
          | inl n ↦ ground arith
          | inr ((e₁, rest), r) ↦
              Cuts-some (e₁, p.conn ∷ rest) (e', own)
                (cut p e y w (cut_in_source-Cuts fuel source share (forget p e) e₁ rest r))
                (ground arith)
        ]
      ]
    ]

oldest-none : (e : Entry) → oldest e.pending ≡ none → select (λ _. true) e.pending ≡ none
unfolding select
oldest-none e n = ground arith

pub evict-Cuts :
    (fuel : ℕ) (e e' : Entry) (all : List ℕ)
    → evict fuel e ≡ some (e', all)
    → Cuts (λ _. true) is_full e all e'
unfolding evict
evict-Cuts zero e e' all h = ground arith
evict-Cuts (suc fuel) e e' all h = elim (Bool-cases (is_full e)) [
  | inr n ↦ Cuts-some (e, []) (e', all) (stop e (inl n)) (ground arith)
  | inl y ↦ elim (Option-cases (oldest e.pending)) [
    | inl n ↦ Cuts-some (e, []) (e', all) (stop e (inr (oldest-none e n))) (ground arith)
    | inr (p, w) ↦ elim (Option-cases (evict fuel (forget p e))) [
      | inl n ↦ ground arith
      | inr ((e₁, rest), r) ↦
          Cuts-some (e₁, p.conn ∷ rest) (e', all)
            (cut p e y (IsFound-oldest p e w) (evict-Cuts fuel (forget p e) e₁ rest r))
            (ground arith)
    ]
  ]
]

-- The limit is kept at the end: the walk that finds none is over an entry that holds none.
pub Cuts-over :
    (q : PendingChannel → Bool) (over : Entry → Bool) {e e' : Entry} {cut : List ℕ}
    → ((d : Entry) → IsSound d → select q d.pending ≡ none → over d ≡ false)
    → IsSound e
    → Cuts q over e cut e'
    → over e' ≡ false
Cuts-over q over empty s (stop e (inl n)) = n
Cuts-over q over empty s (stop e (inr n)) = empty e s n
Cuts-over q over empty s (cut p e o w more) = Cuts-over q over empty (forget-IsSound q p e w s) more

-- Every handshake that left is one connection to close.
pub Cuts-length :
    (q : PendingChannel → Bool) (over : Entry → Bool) {e e' : Entry} {cut : List ℕ}
    → IsSound e
    → Cuts q over e cut e'
    → length cut + length e'.pending ≡ length e.pending
Cuts-length q over s (stop e _) = omega arith
Cuts-length q over s (cut p e o w more) =
    omega (arith, Cuts-length q over (forget-IsSound q p e w s) more, length-forget_one q p e w s)
