-- ===== src/Server/Entry/Admission.antt =====
-- internal/server/channel.go: what admit and leave do to the entry.
use nox_app.Base.{
  some_inj, ℕ, ◌+◌, ◌<◌, ◌≡◌, refl, ap, sym, ◌∙◌, String, Bool, true, false, none, some, List, [],
  ◌∷◌, ◌++◌, inl, inr, if◌then◌else◌, same→eq, length, arith, Option-cases, is_none, min,
}
use nox_app.Sql.{select, count}
use nox_app.Sql.Laws.{count-append, count_of_select}
use nox_app.Server.Entry.{
  PendingChannel, ShedCounts, Entry, is_from, has_conn, held_by, join, share_of, shed_of,
  count_shed, shed_if_cut, admit, cut_in_source, evict, rounds, at_share, is_full,
}
use nox_app.Server.Entry.Laws.{held_by-put_source}
use nox_app.Server.Entry.Sound.{IsSound}
use nox_app.Server.Entry.Rounds.{
  Cuts, cut_in_source-Cuts, evict-Cuts, cut_in_source-returns, evict-returns,
}

-- The handshake that admit adds.
abbrev pub newcomer : ℕ → ℕ → String → Bool → Entry → PendingChannel
newcomer conn accepted source is_local e = record {
  conn = conn;
  accepted = accepted;
  source = source;
  is_local = is_local;
  first_byte_by = if is_local then none else some (accepted + min e.first_byte e.budget);
}

-- What the warning's counts leave alone.
shed_if_cut-keeps {ℓ} :
    {X : Type ℓ} (f : Entry → X) (is_local : Bool) (own all : List ℕ) (e : Entry)
    → ((c : ShedCounts) → f (count_shed c e) ≡ f e)
    → f (shed_if_cut is_local own all e) ≡ f e
shed_if_cut-keeps f is_local [] [] e k = refl
shed_if_cut-keeps f is_local [] (y ∷ ys) e k = k (shed_of is_local 0 (length (y ∷ ys)))
shed_if_cut-keeps f is_local (x ∷ xs) ys e k = k (shed_of is_local (length (x ∷ xs)) (length ys))

-- The parts of a call of admit that returns.
pub record IsAdmitted (conn accepted : ℕ) (source : String) (is_local : Bool) (e e' : Entry)
    (closed : List ℕ) : Type 0 where
  pub between : Entry
  pub after : Entry
  pub own : List ℕ
  pub all : List ℕ
  pub within : Cuts (is_from source) (at_share source (share_of is_local e)) e own between
  pub overall : Cuts (λ _. true) is_full between all after
  pub joined : e' ≡ join conn accepted source is_local (shed_if_cut is_local own all after)
  pub closes : closed ≡ own ++ all

module _ (conn accepted : ℕ) (source : String) (is_local : Bool) (e : Entry) where
  pub admit-IsAdmitted :
      (e' : Entry) (closed : List ℕ)
      → admit conn accepted source is_local e ≡ some (e', closed)
      → IsAdmitted conn accepted source is_local e e' closed
  unfolding admit
  admit-IsAdmitted e' closed h =
      elim (Option-cases (cut_in_source (rounds e) source (share_of is_local e) e)) [
        | inl n ↦ ground arith
        | inr ((e₁, own), a) ↦ elim (Option-cases (evict (rounds e₁) e₁)) [
          | inl n ↦ ground arith
          | inr ((e₂, all), b) ↦
              let same_pair : ◌≡◌ {A = Entry × List ℕ}
                  (join conn accepted source is_local (shed_if_cut is_local own all e₂), own ++ all)
                  (e', closed) =
                some_inj _ _ (ground arith) in
              record {
                between = e₁;
                after = e₂;
                own = own;
                all = all;
                within = cut_in_source-Cuts (rounds e) source (share_of is_local e) e e₁ own a;
                overall = evict-Cuts (rounds e₁) e₁ e₂ all b;
                joined = sym (ap (λ z. z.0) same_pair);
                closes = sym (ap (λ z. z.1) same_pair);
              }
        ]
      ]

  -- admit always comes to an end, whatever the entry holds and however its limits were set: each
  -- round of either loop cuts one of the handshakes pending, and the rounds given are one more.
  pub admit-returns : is_none (admit conn accepted source is_local e) ≡ false
  unfolding admit
  admit-returns = elim (Option-cases (cut_in_source (rounds e) source (share_of is_local e) e)) [
    | inl n ↦
        ground
          (arith, cut_in_source-returns (rounds e) source (share_of is_local e) e (omega arith))
    | inr ((e₁, own), a) ↦ ground (arith, evict-returns (rounds e₁) e₁ (omega arith))
  ]

module _ (conn accepted : ℕ) (source : String) (is_local : Bool) (e : Entry) (s : IsSound e) where
  pub join-IsSound :
      count (has_conn conn) e.pending ≡ 0 → IsSound (join conn accepted source is_local e)
  unfolding join count
  join-IsSound new = record {
    counts = λ t. ground (
      arith,
      held_by-put_source source t (held_by source e.by_source + 1) e.by_source,
      s.counts t,
      s.counts source,
      same→eq source t,
      count-append (is_from t) e.pending (newcomer conn accepted source is_local e ∷ []),
    );
    once = λ c. ground (
      arith,
      s.once c,
      count-append (has_conn c) e.pending (newcomer conn accepted source is_local e ∷ []),
    );
  }

module _ (is_local : Bool) (own all : List ℕ) (e : Entry) where
  keeps {ℓ} :
      {X : Type ℓ} (f : Entry → X)
      → ((c : ShedCounts) → f (count_shed c e) ≡ f e)
      → f (shed_if_cut is_local own all e) ≡ f e
  keeps f k = shed_if_cut-keeps f is_local own all e k

  pub pending-shed_if_cut : (shed_if_cut is_local own all e).pending ≡ e.pending
  unfolding count_shed
  pending-shed_if_cut = keeps (λ d. d.pending) (λ c. refl)

  pub limits-shed_if_cut :
      (f : Entry → ℕ)
      → ((c : ShedCounts) → f (count_shed c e) ≡ f e)
      → f (shed_if_cut is_local own all e) ≡ f e
  limits-shed_if_cut f k = keeps f k

  pub IsSound-shed_if_cut : IsSound e → IsSound (shed_if_cut is_local own all e)
  unfolding count_shed
  IsSound-shed_if_cut s = record {
    counts = λ t.
        keeps (λ d. held_by t d.by_source) (λ c. refl)
        ∙ s.counts t
        ∙ ap (count (is_from t)) (sym pending-shed_if_cut);
    once = λ c. omega (arith, s.once c, ap (count (has_conn c)) pending-shed_if_cut);
  }

-- The loops' conditions, read once they are over.
pub below_share :
    (source : String) (share : ℕ) (e : Entry)
    → IsSound e
    → 0 < share
    → at_share source share e ≡ false
    → count (is_from source) e.pending < share
below_share source share e s h n = ground (arith, s.counts source)

pub below_max :
    (e : Entry) → 0 < e.max_pending → is_full e ≡ false → length e.pending < e.max_pending
below_max e h n = ground arith

pub at_share-none :
    (source : String) (share : ℕ) (e : Entry)
    → IsSound e
    → select (is_from source) e.pending ≡ none
    → at_share source share e ≡ false
at_share-none source share e s n =
    ground (arith, s.counts source, count_of_select (is_from source) e.pending n)

length_of_none : (xs : List PendingChannel) → select (λ _. true) xs ≡ none → length xs ≡ 0
unfolding select
length_of_none [] n = refl
length_of_none (x ∷ xs) n = ground arith

pub none_full : (e : Entry) → select (λ _. true) e.pending ≡ none → is_full e ≡ false
none_full e n = ground (arith, length_of_none e.pending n)
