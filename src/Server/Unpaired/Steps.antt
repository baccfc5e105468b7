-- ===== src/Server/Unpaired/Steps.antt =====
-- internal/server/unpaired.go: every step keeps the holds tidy.
use nox_app.Base.{
  ℕ, zero, suc, ◌<◌, ◌≡◌, refl, ap, subst, inl, inr, String, Bool, false, Option, none, some, List,
  [], ◌∷◌, same→eq, is_none, length, length-append, arith, Option-cases, Bool-cases, some_inj, ◌⊎◌,
}
use nox_app.Sql.{select, count}
use nox_app.Sql.Laws.{count-append}
use nox_app.Sql.Counts.{count-delete-le, count-delete_self}
use nox_app.Server.Unpaired.{
  Strangers, is_conn, is_holder, is_wait, let_go, arm, is_full, make_room, take_place,
  place_unpaired, is_held, let_go_of, take_wait, await_answer, end_wait,
}
use nox_app.Server.Unpaired.Holds.{
  IsTidy, IsFree, let_go-IsTidy, let_go-IsFree, let_go-length, let_go-IsFree-other,
}

list_cases : (xs : List ℕ) → (xs ≡ []) ⊎ ((y : ℕ) × (ys : List ℕ) × (xs ≡ y ∷ ys))
list_cases [] = inl refl
list_cases (y ∷ ys) = inr (y, ys, refl)

max-let_go : (c : ℕ) (s : Strangers) → (let_go c s).max_unpaired ≡ s.max_unpaired
unfolding let_go
max-let_go c s = refl

oldest_counted :
    (y : ℕ) (ys : List ℕ) (s : Strangers)
    → IsTidy s
    → s.unpaired ≡ y ∷ ys
    → count (is_conn y) s.unpaired ≡ 1
unfolding count
oldest_counted y ys s t h = ground (arith, t.one_hold y, ap (count (is_conn y)) h)

-- The entry once there is a place in it.
record HasPlace (s s' : Strangers) : Type 0 where
  tidy : IsTidy s'
  place_left : length s'.unpaired < s'.max_unpaired
  free : (c : ℕ) → IsFree c s → IsFree c s'

first_is :
    (s s' : Strangers) (cut cut' : List ℕ)
    → ◌≡◌ {A = Option (Strangers × List ℕ)} (some (s, cut)) (some (s', cut'))
    → s ≡ s'
first_is s s' cut cut' e = ap (λ z. z.0) (some_inj (s, cut) (s', cut') e)

place_of : (s s₁ s' : Strangers) → HasPlace s s₁ → s₁ ≡ s' → HasPlace s s'
place_of s s₁ s' p e = subst (HasPlace s) e p

make_room-HasPlace :
    (fuel : ℕ) (s s' : Strangers) (cut : List ℕ)
    → IsTidy s
    → make_room fuel s ≡ some (s', cut)
    → HasPlace s s'
unfolding make_room
make_room-HasPlace zero s s' cut t h = ground arith
make_room-HasPlace (suc fuel) s s' cut t h = elim (Bool-cases (is_full s)) [
  | inr n ↦
      place_of s s s'
        (record { tidy = t; place_left = ground (arith, t.some_place); free = λ c f. f })
        (first_is s s' [] cut (ground arith))
  | inl y ↦ elim (list_cases s.unpaired) [
    | inl e ↦ ground arith
    | inr (oldest, ys, e) ↦ elim (Option-cases (make_room fuel (let_go oldest s))) [
      | inl n ↦ ground arith
      | inr ((s₁, rest), r) ↦
          let p = make_room-HasPlace fuel (let_go oldest s) s₁ rest (let_go-IsTidy oldest s t) r in
          place_of s s₁ s'
            (record {
              tidy = p.tidy;
              place_left = p.place_left;
              free = λ c f. p.free c (let_go-IsFree-other oldest c s f);
            })
            (first_is s₁ s' (oldest ∷ rest) cut (ground arith))
    ]
  ]
]

pub make_room-returns :
    (fuel : ℕ) (s : Strangers)
    → IsTidy s
    → length s.unpaired < fuel
    → is_none (make_room fuel s) ≡ false
unfolding make_room
make_room-returns zero s t h = ground arith
make_room-returns (suc fuel) s t h = elim (list_cases s.unpaired) [
  | inl e ↦ ground arith
  | inr (oldest, ys, e) ↦
      let later =
        make_room-returns fuel (let_go oldest s) (let_go-IsTidy oldest s t)
          (omega (arith, let_go-length oldest s t (oldest_counted oldest ys s t e))) in
      ground (arith, later)
]

take_place-IsTidy :
    (c : ℕ) (s : Strangers)
    → IsTidy s
    → length s.unpaired < s.max_unpaired
    → IsFree c s
    → IsTidy (take_place c s)
unfolding take_place arm count
take_place-IsTidy c s t p f = record {
  one_hold = λ d. ground (arith, t.one_hold d, f, count-append (is_conn d) s.unpaired (c ∷ []));
  one_holder = t.one_holder;
  room = omega (arith, p, length-append s.unpaired (c ∷ []));
  some_place = t.some_place;
}

pub place_unpaired-IsTidy :
    (c : ℕ) (s s' : Strangers) (cut : List ℕ)
    → IsTidy s
    → IsFree c s
    → place_unpaired c s ≡ some (s', cut)
    → IsTidy s'
unfolding place_unpaired
place_unpaired-IsTidy c s s' cut t f h =
    elim (Option-cases (make_room (suc (length s.unpaired)) s)) [
      | inl n ↦ ground arith
      | inr ((s₁, cut₁), r) ↦
          let p = make_room-HasPlace (suc (length s.unpaired)) s s₁ cut₁ t r in
          subst IsTidy (first_is (take_place c s₁) s' cut₁ cut (ground arith))
            (take_place-IsTidy c s₁ p.tidy p.place_left (p.free c f))
    ]

take_wait-IsTidy :
    (r : String) (c : ℕ) (s : Strangers) → IsTidy s → IsFree c s → IsTidy (take_wait r c s)
unfolding take_wait arm count
take_wait-IsTidy r c s t f = record {
  one_hold =
      λ d. ground (arith, t.one_hold d, f, count-delete-le (is_holder d) (is_wait r) s.waits);
  one_holder = λ q. ground (
    arith,
    t.one_holder q,
    same→eq r q,
    count-delete_self (is_wait r) s.waits,
    count-delete-le (is_wait q) (is_wait r) s.waits,
  );
  room = t.room;
  some_place = t.some_place;
}

let_go_of-IsTidy : (o : Option (String × ℕ)) (s : Strangers) → IsTidy s → IsTidy (let_go_of o s)
let_go_of-IsTidy none s t = t
let_go_of-IsTidy (some (r, left)) s t = let_go-IsTidy left s t

let_go_of-IsFree :
    (o : Option (String × ℕ)) (c : ℕ) (s : Strangers) → IsFree c s → IsFree c (let_go_of o s)
let_go_of-IsFree none c s f = f
let_go_of-IsFree (some (r, left)) c s f = let_go-IsFree-other left c s f

pub await_answer-IsTidy :
    (r : String) (c : ℕ) (s : Strangers) → IsTidy s → IsTidy (await_answer r c s).0
unfolding await_answer
await_answer-IsTidy r c s t = elim (Bool-cases (is_held c s)) [
  | inr n ↦ rw (await_answer, n) t
  | inl y ↦
      let holder = select (is_wait r) (let_go c s).waits in
      rw (await_answer, y)
        (take_wait-IsTidy r c (let_go_of holder (let_go c s))
          (let_go_of-IsTidy holder (let_go c s) (let_go-IsTidy c s t))
          (let_go_of-IsFree holder c (let_go c s) (let_go-IsFree c s t)))
]

pub end_wait-IsTidy :
    (r : String) (allowed : Bool) (s s' : Strangers) (cut : List ℕ)
    → IsTidy s
    → end_wait r allowed s ≡ some (s', cut)
    → IsTidy s'
unfolding end_wait
end_wait-IsTidy r allowed s s' cut t h = elim (Option-cases (select (is_wait r) s.waits)) [
  | inl n ↦ subst IsTidy (first_is s s' [] cut (ground arith)) t
  | inr ((q, holder), f) ↦ elim (Bool-cases allowed) [
    | inl y ↦
        subst IsTidy (first_is (let_go holder s) s' [] cut (ground arith))
          (let_go-IsTidy holder s t)
    | inr n ↦
        place_unpaired-IsTidy holder (let_go holder s) s' cut (let_go-IsTidy holder s t)
          (let_go-IsFree holder s t) (ground arith)
  ]
]
