-- ===== src/Server/Hub/Streams.antt =====
-- internal/hub/hub.go: the stream of one subscriber.
use nox_app.Base.{
  ℕ, suc, ◌-◌, ◌≡◌, refl, ap, sym, ◌∙◌, inl, inr, Bool, true, false, not, ◌&&◌, Option, none, some,
  List, [], ◌∷◌, ◌++◌, ltb, ◌==◌, if◌then◌else◌, length, length-append, arith, Bool-cases,
  append-nil, append_assoc,
}
use nox_app.Server.Hub.{
  subscriber_buffer, Envelope, Hub, rest_of, Event, joins, leaves, casts, reads, stops, step, run,
}
use nox_app.Server.Hub.Alone.{
  Alone, step_alone, run_alone, seen_by, seen_by-run, seen_by-step, step-IsDistinct, IsDistinct,
}

-- The envelopes that were broadcast, in their order.
abbrev pub cast_in : List Event → List Envelope
cast_in [] = []
cast_in (joins i ∷ more) = cast_in more
cast_in (leaves i ∷ more) = cast_in more
cast_in (casts e ∷ more) = e ∷ cast_in more
cast_in (reads i ∷ more) = cast_in more
cast_in (stops ∷ more) = cast_in more

abbrev first_of : List Envelope → List Envelope
first_of [] = []
first_of (e ∷ _) = e ∷ []

abbrev waiting_in : Option (List Envelope) → List Envelope
waiting_in none = []
waiting_in (some w) = w

-- What an event makes a subscriber's reader take.
abbrev pub took : ℕ → Event → Alone → List Envelope
took id (joins i) a = []
took id (leaves i) a = []
took id (casts e) a = []
took id (reads i) a = if i == id then first_of (waiting_in a.channel) else []
took id stops a = []

-- What a subscriber's reader takes through a history of the hub.
unfoldable pub delivered : ℕ → List Event → Hub → List Envelope
delivered id [] h = []
delivered id (e ∷ more) h = took id e (seen_by id h) ++ delivered id more (step e h)

unfoldable taken_alone : ℕ → List Event → Alone → List Envelope
taken_alone id [] a = []
taken_alone id (e ∷ more) a = took id e a ++ taken_alone id more (step_alone id e a)

delivered-taken_alone :
    (id : ℕ) (events : List Event) (h : Hub)
    → IsDistinct h.subs
    → delivered id events h ≡ taken_alone id events (seen_by id h)
unfolding delivered taken_alone
delivered-taken_alone id [] h u = refl
delivered-taken_alone id (e ∷ more) h u =
    ap (λ z. took id e (seen_by id h) ++ z)
      (delivered-taken_alone id more (step e h) (step-IsDistinct e h u)
        ∙ ap (taken_alone id more) (seen_by-step id e h u))

-- A subscriber that `n` envelopes wait for keeps up: it stays, the hub runs on, and at each
-- broadcast it is less than a full buffer behind.
unfoldable pub keeps_up : ℕ → List Event → ℕ → Bool
keeps_up id [] n = true
keeps_up id (joins i ∷ more) n = keeps_up id more n
keeps_up id (leaves i ∷ more) n = let rest = keeps_up id more n in not (i == id) && rest
keeps_up id (casts e ∷ more) n =
    let rest = keeps_up id more (suc n) in ltb n subscriber_buffer && rest
keeps_up id (reads i ∷ more) n =
    let here = keeps_up id more (n - 1) in
    let elsewhere = keeps_up id more n in if i == id then here else elsewhere
keeps_up id (stops ∷ more) n = false

abbrev pub live : List Envelope → Alone
live w = record { over = false; channel = some w }

joins-live : (id i : ℕ) (w : List Envelope) → step_alone id (joins i) (live w) ≡ live w
unfolding step_alone
joins-live id i w = ground arith

leaves-live :
    (id i : ℕ) (w : List Envelope) → i == id ≡ false → step_alone id (leaves i) (live w) ≡ live w
unfolding step_alone
leaves-live id i w h = ground arith

casts-live :
    (id : ℕ) (e : Envelope) (w : List Envelope)
    → ltb (length w) subscriber_buffer ≡ true
    → step_alone id (casts e) (live w) ≡ live (w ++ e ∷ [])
unfolding step_alone
casts-live id e w h = ground arith

reads-live :
    (id i : ℕ) (w : List Envelope)
    → i == id ≡ true
    → step_alone id (reads i) (live w) ≡ live (rest_of w)
unfolding step_alone
reads-live id i w h = ground arith

reads_other :
    (id i : ℕ) (w : List Envelope) → i == id ≡ false → step_alone id (reads i) (live w) ≡ live w
unfolding step_alone
reads_other id i w h = ground arith

length-rest_of : (w : List Envelope) → length (rest_of w) ≡ length w - 1
length-rest_of [] = omega arith
length-rest_of (e ∷ w) = omega arith

first_and_rest : (w xs : List Envelope) → first_of w ++ (rest_of w ++ xs) ≡ w ++ xs
first_and_rest [] xs = refl
first_and_rest (e ∷ w) xs = refl

-- One event that leaves the subscriber with `w'`, of what it takes and what it is sent.
follow :
    (id : ℕ) (e : Event) (more : List Event) (w w' left : List Envelope)
    → step_alone id e (live w) ≡ live w'
    → took id e (live w) ++ (w' ++ cast_in more) ≡ w ++ cast_in (e ∷ more)
    → run_alone id more (live w') ≡ live left
    → taken_alone id more (live w') ++ left ≡ w' ++ cast_in more
    → (left' : List Envelope) × (run_alone id (e ∷ more) (live w) ≡ live left')
      × (taken_alone id (e ∷ more) (live w) ++ left' ≡ w ++ cast_in (e ∷ more))
unfolding run_alone taken_alone
follow id e more w w' left s c r d = (
  left,
  ap (run_alone id more) s ∙ r,
  append_assoc (took id e (live w)) (taken_alone id more (step_alone id e (live w))) left
      ∙ ap (λ z. took id e (live w) ++ (taken_alone id more z ++ left)) s
      ∙ ap (λ z. took id e (live w) ++ z) d
      ∙ c,
)

alone_stream :
    (id : ℕ) (events : List Event) (w : List Envelope)
    → keeps_up id events (length w) ≡ true
    → (left : List Envelope) × (run_alone id events (live w) ≡ live left)
      × (taken_alone id events (live w) ++ left ≡ w ++ cast_in events)
unfolding run_alone taken_alone keeps_up
alone_stream id [] w k = (w, refl, sym (append-nil w))
alone_stream id (joins i ∷ more) w k =
    let (left, r, d) = alone_stream id more w k in
    follow id (joins i) more w w left (joins-live id i w) refl r d
alone_stream id (leaves i ∷ more) w k =
    let (left, r, d) = alone_stream id more w (ground arith) in
    follow id (leaves i) more w w left (leaves-live id i w (ground arith)) refl r d
alone_stream id (casts e ∷ more) w k =
    let (left, r, d) =
      alone_stream id more (w ++ e ∷ []) (ground (arith, length-append w (e ∷ []))) in
    follow id (casts e) more w (w ++ e ∷ []) left (casts-live id e w (ground arith))
      (append_assoc w (e ∷ []) (cast_in more)) r d
alone_stream id (reads i ∷ more) w k = elim (Bool-cases (i == id)) [
  | inl y ↦
      let (left, r, d) = alone_stream id more (rest_of w) (ground (arith, length-rest_of w)) in
      follow id (reads i) more w (rest_of w) left (reads-live id i w y)
        (rw y (first_and_rest w (cast_in more))) r d
  | inr n ↦
      let (left, r, d) = alone_stream id more w (ground arith) in
      follow id (reads i) more w w left (reads_other id i w n) (rw n refl) r d
]
alone_stream id (stops ∷ more) w k = ground arith

-- A subscriber that keeps up is never dropped, and gets every envelope that is broadcast, once and
-- in order: what its reader has taken and what still waits for it are what waited at the start and
-- then all that was broadcast since, whatever the other subscribers do.
pub delivered-run :
    (id : ℕ) (events : List Event) (h : Hub) (w : List Envelope)
    → IsDistinct h.subs
    → seen_by id h ≡ live w
    → keeps_up id events (length w) ≡ true
    → (left : List Envelope) × (seen_by id (run events h) ≡ live left)
      × (delivered id events h ++ left ≡ w ++ cast_in events)
delivered-run id events h w u start k =
    let (left, r, d) = alone_stream id events w k in
    (
      left,
      seen_by-run id events h u ∙ ap (run_alone id events) start ∙ r,
      ap (λ z. z ++ left) (delivered-taken_alone id events h u)
          ∙ ap (λ z. taken_alone id events z ++ left) start
          ∙ d,
    )
