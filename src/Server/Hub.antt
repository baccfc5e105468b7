-- ===== src/Server/Hub.antt =====
-- internal/hub/hub.go: the events' fan-out. A subscriber is its number; the channel of one is the
-- envelopes sent on it that its reader has not taken.
use nox_app.Base.{
  ℕ, zero, suc, ◌+◌, ◌≤◌, ◌<◌, String, Bool, true, false, not, ◌&&◌, Option, none, some, List, [],
  ◌∷◌, ◌++◌, ltb, ◌==◌, if◌then◌else◌, same, length, map,
}
use nox_app.Sql.{select, delete, update}
pub mod Alone
pub mod Streams

abbrev pub subscriber_buffer : ℕ
subscriber_buffer = 16

pub record Envelope : Type 0 where
  pub author_id : String
  pub full : String
  pub stripped : String

-- FrameFor: the wire bytes for a recipient.
unfoldable pub frame_for : Envelope → String → String
frame_for e id = if not (same e.author_id "") && same e.author_id id then e.full else e.stripped

-- A subscriber the hub knows: what waits in its channel.
pub record Subscriber : Type 0 where
  pub id : ℕ
  pub waiting : List Envelope

-- A subscriber whose channel the hub has closed: what its reader can still take, and whether it was
-- dropped for falling behind.
pub record Closed : Type 0 where
  pub id : ℕ
  pub left : List Envelope
  pub dropped : Bool

pub record Hub : Type 0 where
  pub subs : List Subscriber
  pub closed : List Closed
  -- Run has returned.
  pub done : Bool

abbrev pub new_hub : Hub
new_hub = record { subs = []; closed = []; done = false }

abbrev pub is_sub : ℕ → Subscriber → Bool
is_sub id s = s.id == id

abbrev pub close : Bool → Subscriber → Closed
close dropped s = record { id = s.id; left = s.waiting; dropped = dropped }

-- The case of register. A subscriber is registered once: one that comes back is another number.
unfoldable pub register : ℕ → Hub → Hub
register id h = elim (select (is_sub id) h.subs) [
  | none ↦ record h { subs = h.subs ++ record { id = id; waiting = [] } ∷ [] }
  | some _ ↦ h
]

-- The case of unregister.
unfoldable pub unregister : ℕ → Hub → Hub
unregister id h = elim (select (is_sub id) h.subs) [
  | none ↦ h
  | some s ↦ record h { subs = delete (is_sub id) h.subs; closed = close false s ∷ h.closed }
]

abbrev pub has_room : Subscriber → Bool
has_room s = ltb (length s.waiting) subscriber_buffer

abbrev pub sent : Envelope → Subscriber → Subscriber
sent e s = record s { waiting = s.waiting ++ e ∷ [] }

-- The case of broadcast, over the subscribers in turn: a channel without room is closed.
unfoldable pub kept_subs : Envelope → List Subscriber → List Subscriber
kept_subs e [] = []
kept_subs e (s ∷ more) = let kept = kept_subs e more in if has_room s then sent e s ∷ kept else kept

unfoldable pub cut_subs : List Subscriber → List Closed
cut_subs [] = []
cut_subs (s ∷ more) = let cut = cut_subs more in if has_room s then cut else close true s ∷ cut

unfoldable pub broadcast : Envelope → Hub → Hub
unfolding kept_subs cut_subs
broadcast e h = record h { subs = kept_subs e h.subs; closed = cut_subs h.subs ++ h.closed }

-- The case of ctx.Done: every channel left is closed.
unfoldable pub stop : Hub → Hub
stop h = record { subs = []; closed = map (close false) h.subs ++ h.closed; done = true }

-- A subscriber's reader takes what is first in its channel.
abbrev pub rest_of : List Envelope → List Envelope
rest_of [] = []
rest_of (_ ∷ more) = more

unfoldable pub take_first : ℕ → Hub → Hub
take_first id h = record h {
  subs = update (is_sub id) (λ s. record s { waiting = rest_of s.waiting }) h.subs;
}

-- What reaches the hub, in the order Run takes it, and the reads of its subscribers.
pub data Event : Type 0 where
  joins : ℕ → Event
  leaves : ℕ → Event
  casts : Envelope → Event
  reads : ℕ → Event
  stops : Event

-- Register, Unregister and Broadcast do nothing once Run has returned.
unfoldable pub step : Event → Hub → Hub
unfolding register unregister broadcast stop take_first
step (joins id) h = if h.done then h else register id h
step (leaves id) h = if h.done then h else unregister id h
step (casts e) h = if h.done then h else broadcast e h
step (reads id) h = take_first id h
step stops h = stop h

unfoldable pub run : List Event → Hub → Hub
unfolding step
run [] h = h
run (e ∷ more) h = run more (step e h)
