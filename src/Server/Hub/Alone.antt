-- ===== src/Server/Hub/Alone.antt =====
-- internal/hub/hub.go: the hub as one subscriber sees it, and that the hub is just that to each.
use nox_app.Base.{
  ℕ, ◌≤◌, ◌≡◌, refl, ap, ◌∙◌, Bool, true, false, not, ◌&&◌, Option, none, some, List, [], ◌∷◌, ◌++◌,
  ltb, ◌==◌, if◌then◌else◌, length, arith,
}
use nox_app.Sql.{select, delete, update, count}
use nox_app.Sql.Laws.{select-append, count-append, count_of_select, select_of_count}
use nox_app.Sql.Counts.{count-update, count-delete-le, count-delete_self}
use nox_app.Server.Hub.{
  subscriber_buffer, Envelope, Subscriber, Hub, is_sub, kept_subs, broadcast, register, unregister,
  stop, rest_of, take_first, Event, joins, leaves, casts, reads, stops, step, run,
}

-- The whole hub to one subscriber: whether it runs, and, while it is subscribed, its channel.
pub record Alone : Type 0 where
  pub over : Bool
  pub channel : Option (List Envelope)

abbrev opened : Option (List Envelope) → Option (List Envelope)
opened none = some []
opened (some w) = some w

abbrev pub queued : Envelope → Option (List Envelope) → Option (List Envelope)
queued e none = none
queued e (some w) = if ltb (length w) subscriber_buffer then some (w ++ e ∷ []) else none

abbrev taken : Option (List Envelope) → Option (List Envelope)
taken none = none
taken (some w) = some (rest_of w)

unfoldable pub step_alone : ℕ → Event → Alone → Alone
step_alone id (joins i) a =
    if not a.over && i == id then record a { channel = opened a.channel } else a
step_alone id (leaves i) a = if not a.over && i == id then record a { channel = none } else a
step_alone id (casts e) a = if a.over then a else record a { channel = queued e a.channel }
step_alone id (reads i) a = if i == id then record a { channel = taken a.channel } else a
step_alone id stops a = record { over = true; channel = none }

unfoldable pub run_alone : ℕ → List Event → Alone → Alone
unfolding step_alone
run_alone id [] a = a
run_alone id (e ∷ more) a = run_alone id more (step_alone id e a)

abbrev pub channel_of : Option Subscriber → Option (List Envelope)
channel_of none = none
channel_of (some s) = some s.waiting

-- What of the hub one subscriber sees.
unfoldable pub seen_by : ℕ → Hub → Alone
seen_by id h = record { over = h.done; channel = channel_of (select (is_sub id) h.subs) }

-- No subscriber is in the set twice.
abbrev pub IsDistinct : List Subscriber → Type 0
IsDistinct subs = (id : ℕ) → count (is_sub id) subs ≤ 1

count-kept_subs :
    (id : ℕ) (e : Envelope) (subs : List Subscriber)
    → count (is_sub id) (kept_subs e subs) ≤ count (is_sub id) subs
unfolding kept_subs count
count-kept_subs id e [] = omega arith
count-kept_subs id e (s ∷ more) = ground (arith, count-kept_subs id e more)

-- Each channel is sent to, or closed, by its own room alone.
select-kept_subs :
    (id : ℕ) (e : Envelope) (subs : List Subscriber)
    → count (is_sub id) subs ≤ 1
    → channel_of (select (is_sub id) (kept_subs e subs))
      ≡ queued e (channel_of (select (is_sub id) subs))
unfolding select kept_subs count
select-kept_subs id e [] h = refl
select-kept_subs id e (s ∷ more) h = ground (
  arith,
  select-kept_subs id e more,
  count-kept_subs id e more,
  select_of_count (is_sub id) (kept_subs e more),
)

select-delete_sub :
    (id i : ℕ) (subs : List Subscriber)
    → i == id ≡ false
    → select (is_sub id) (delete (is_sub i) subs) ≡ select (is_sub id) subs
unfolding select delete
select-delete_sub id i [] h = refl
select-delete_sub id i (s ∷ more) h = ground (arith, select-delete_sub id i more)

gone : (id : ℕ) (subs : List Subscriber) → select (is_sub id) (delete (is_sub id) subs) ≡ none
gone id subs =
    select_of_count (is_sub id) (delete (is_sub id) subs) (count-delete_self (is_sub id) subs)

abbrev read_one : Subscriber → Subscriber
read_one s = record s { waiting = rest_of s.waiting }

channel-read_one :
    (id i : ℕ) (subs : List Subscriber)
    → channel_of (select (is_sub id) (update (is_sub i) read_one subs)) ≡ (
        if i == id
        then taken (channel_of (select (is_sub id) subs))
        else channel_of (select (is_sub id) subs))
unfolding select update
channel-read_one id i [] = ground arith
channel-read_one id i (s ∷ more) = ground (arith, channel-read_one id i more)

-- One event, seen by one subscriber.
pub seen_by-step :
    (id : ℕ) (e : Event) (h : Hub)
    → IsDistinct h.subs
    → seen_by id (step e h) ≡ step_alone id e (seen_by id h)
unfolding seen_by step step_alone register unregister broadcast stop take_first select count
seen_by-step id (joins i) h u =
    ground (arith, select-append (is_sub id) h.subs (record { id = i; waiting = [] } ∷ []))
seen_by-step id (leaves i) h u = ground (arith, select-delete_sub id i h.subs, gone id h.subs)
seen_by-step id (casts e) h u = ground (arith, select-kept_subs id e h.subs (u id))
seen_by-step id (reads i) h u = ground (arith, channel-read_one id i h.subs)
seen_by-step id stops h u = refl

pub step-IsDistinct : (e : Event) (h : Hub) → IsDistinct h.subs → IsDistinct (step e h).subs
unfolding step register unregister broadcast stop take_first select count
step-IsDistinct (joins i) h u id = ground (
  arith,
  u id,
  count-append (is_sub id) h.subs (record { id = i; waiting = [] } ∷ []),
  count_of_select (is_sub i) h.subs,
)
step-IsDistinct (leaves i) h u id =
    ground (arith, u id, count-delete-le (is_sub id) (is_sub i) h.subs)
step-IsDistinct (casts e) h u id = ground (arith, u id, count-kept_subs id e h.subs)
step-IsDistinct (reads i) h u id =
    omega (arith, u id, count-update (is_sub id) (is_sub i) read_one h.subs (λ s. refl))
step-IsDistinct stops h u id = omega arith

-- The hub is, to every subscriber, what it would be to that one alone: what is sent to it, what it
-- reads and when it is dropped depend on the events and on its own reading, and on no other
-- subscriber. It holds through every history of a hub whose set names no subscriber twice.
pub seen_by-run :
    (id : ℕ) (events : List Event) (h : Hub)
    → IsDistinct h.subs
    → seen_by id (run events h) ≡ run_alone id events (seen_by id h)
unfolding run run_alone
seen_by-run id [] h u = refl
seen_by-run id (e ∷ more) h u =
    seen_by-run id more (step e h) (step-IsDistinct e h u)
    ∙ ap (run_alone id more) (seen_by-step id e h u)
