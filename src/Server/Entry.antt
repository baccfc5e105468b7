-- ===== src/Server/Entry.antt =====
-- internal/server/channel.go: the handshakes under way at the channel's front door, and the room
-- that is made for each new one. A connection is its number, a moment its nanoseconds.
pub mod Laws
pub mod Sound
pub mod Rounds
pub mod Admission
pub mod Limits
pub mod Own
pub mod Promises
use nox_app.Base.{
  ℕ, zero, suc, ◌+◌, ◌-◌, ◌*◌, ◌≤◌, String, Bool, true, false, ◌&&◌, ◌||◌, not, Option, none, some,
  List, [], ◌∷◌, ◌++◌, ltb, leb, ◌==◌, if◌then◌else◌, same, length, min,
}
use nox_app.Sql.{select, delete}

abbrev pub max_pending_channels : ℕ
max_pending_channels = 256

abbrev pub max_pending_per_source : ℕ
max_pending_per_source = 8

abbrev pub max_pending_local : ℕ
max_pending_local = 64

-- pendingChannel: one handshake under way. A handshake from elsewhere has a deadline for its first
-- byte.
pub record PendingChannel : Type 0 where
  pub conn : ℕ
  pub accepted : ℕ
  pub source : String
  pub is_local : Bool
  pub first_byte_by : Option ℕ

pub record ShedCounts : Type 0 where
  pub in_source : ℕ
  pub local : ℕ
  pub evicted : ℕ

-- The map bySource: what it holds for a source, a deletion and a write.
unfoldable pub held_by : String → List (String × ℕ) → ℕ
held_by s [] = 0
held_by s ((t, n) ∷ m) = if same t s then n else held_by s m

unfoldable pub drop_source : String → List (String × ℕ) → List (String × ℕ)
drop_source s [] = []
drop_source s ((t, n) ∷ m) = let rest = drop_source s m in if same t s then rest else (t, n) ∷ rest

unfoldable pub put_source : String → ℕ → List (String × ℕ) → List (String × ℕ)
unfolding drop_source
put_source s n m = (s, n) ∷ drop_source s m

-- What channelListener guards with mu.
pub record Entry : Type 0 where
  pub max_pending : ℕ
  pub max_per_source : ℕ
  pub max_local : ℕ
  pub first_byte : ℕ
  pub budget : ℕ
  pub pending : List PendingChannel
  pub by_source : List (String × ℕ)
  pub shed : ShedCounts
  pub shed_flush : Bool

abbrev pub first_byte_timeout : ℕ
first_byte_timeout = 5 * 1000000000

-- What newChannelListener starts with under mu.
abbrev pub new_entry : ℕ → Entry
new_entry budget = record {
  max_pending = max_pending_channels;
  max_per_source = max_pending_per_source;
  max_local = max_pending_local;
  first_byte = first_byte_timeout;
  budget = budget;
  pending = [];
  by_source = [];
  shed = record { in_source = 0; local = 0; evicted = 0 };
  shed_flush = false;
}

abbrev pub is_from : String → PendingChannel → Bool
is_from source p = same p.source source

abbrev pub has_conn : ℕ → PendingChannel → Bool
has_conn conn p = p.conn == conn

-- The source's count less one; a source left with none drops out of the map.
unfoldable pub drop_one : String → List (String × ℕ) → List (String × ℕ)
unfolding held_by drop_source put_source
drop_one s m =
    let left = held_by s m - 1 in if left == 0 then drop_source s m else put_source s left m

unfoldable pub forget : PendingChannel → Entry → Entry
forget p e = record e {
  pending = delete (has_conn p.conn) e.pending;
  by_source = drop_one p.source e.by_source;
}

unfoldable pub oldest_from : String → Entry → Option PendingChannel
oldest_from source e = select (is_from source) e.pending

-- The conditions of the two loops.
abbrev pub at_share : String → ℕ → Entry → Bool
at_share source share e =
    ltb 0 (held_by source e.by_source) && leb share (held_by source e.by_source)

abbrev pub is_full : Entry → Bool
is_full e = ltb 0 (length e.pending) && leb e.max_pending (length e.pending)

-- The loop that makes room within a source: the connections it cuts. `none` is fuel that ran out.
unfoldable pub cut_in_source : ℕ → String → ℕ → Entry → Option (Entry × List ℕ)
cut_in_source zero source share e = none
cut_in_source (suc fuel) source share e =
    let round : Option (Entry × List ℕ) = elim (oldest_from source e) [
      | none ↦ some (e, [])
      | some p ↦ elim (cut_in_source fuel source share (forget p e)) [
        | none ↦ none
        | some (e', cut) ↦ some (e', p.conn ∷ cut)
      ]
    ] in
    if at_share source share e then round else some (e, [])

abbrev pub oldest : List PendingChannel → Option PendingChannel
oldest [] = none
oldest (p ∷ _) = some p

-- The loop that makes room in the entry.
unfoldable pub evict : ℕ → Entry → Option (Entry × List ℕ)
evict zero e = none
evict (suc fuel) e =
    let round : Option (Entry × List ℕ) = elim (oldest e.pending) [
      | none ↦ some (e, [])
      | some p ↦ elim (evict fuel (forget p e)) [
        | none ↦ none
        | some (e', cut) ↦ some (e', p.conn ∷ cut)
      ]
    ] in
    if is_full e then round else some (e, [])

unfoldable pub count_shed : ShedCounts → Entry → Entry
count_shed c e = record e {
  shed = record {
    in_source = e.shed.in_source + c.in_source;
    local = e.shed.local + c.local;
    evicted = e.shed.evicted + c.evicted;
  };
  shed_flush = true;
}

abbrev pub shed_of : Bool → ℕ → ℕ → ShedCounts
shed_of is_local own all = record {
  in_source = if is_local then 0 else own;
  local = if is_local then own else 0;
  evicted = all;
}

abbrev pub share_of : Bool → Entry → ℕ
share_of is_local e = if is_local then e.max_local else e.max_per_source

-- The new handshake takes the place that was made for it.
unfoldable pub join : ℕ → ℕ → String → Bool → Entry → Entry
unfolding held_by put_source
join conn accepted source is_local e = record e {
  by_source = put_source source (held_by source e.by_source + 1) e.by_source;
  pending =
      e.pending
      ++ record {
        conn = conn;
        accepted = accepted;
        source = source;
        is_local = is_local;
        first_byte_by = if is_local then none else some (accepted + min e.first_byte e.budget);
      }
        ∷ [];
}

abbrev pub shed_if_cut : Bool → List ℕ → List ℕ → Entry → Entry
shed_if_cut is_local [] [] e = e
shed_if_cut is_local own all e = count_shed (shed_of is_local (length own) (length all)) e

abbrev pub rounds : Entry → ℕ
rounds e = suc (length e.pending)

-- admit: the entry with the new handshake in it, and the connections to close.
unfoldable pub admit : ℕ → ℕ → String → Bool → Entry → Option (Entry × List ℕ)
admit conn accepted source is_local e =
    elim (cut_in_source (rounds e) source (share_of is_local e) e) [
      | none ↦ none
      | some (e₁, own) ↦ elim (evict (rounds e₁) e₁) [
        | none ↦ none
        | some (e₂, all) ↦
            some (join conn accepted source is_local (shed_if_cut is_local own all e₂), own ++ all)
      ]
    ]

-- leave, of the handshake on a connection: whether it was still under way.
unfoldable pub leave : ℕ → Entry → Entry × Bool
unfolding forget
leave conn e = elim (select (has_conn conn) e.pending) [
  | none ↦ (e, false)
  | some p ↦ (forget p e, true)
]

-- warnShed: the counts that the warning carries, if any.
unfoldable pub warn_shed : Entry → Entry × ShedCounts
warn_shed e = (
  record e { shed = record { in_source = 0; local = 0; evicted = 0 }; shed_flush = false },
  e.shed,
)

abbrev pub local_source : String
local_source = "local"

-- The addresses of package netip; an address that is not IP is none of the valid ones.
pub record NetIp : Type 1 where
  pub Addr : Type 0
  pub is_valid : Addr → Bool
  pub is_loopback : Addr → Bool
  pub is4 : Addr → Bool
  pub same_ip : Addr → Addr → Bool
  pub text : Addr → String
  pub prefix64 : Addr → String

-- sourceOf, of the remote and the local IP of a connection.
unfoldable pub source_of : (net : NetIp) → net.Addr → net.Addr → String × Bool
source_of net remote here =
    if not (net.is_valid remote)
    then ("", false)
    else if net.is_loopback remote || net.same_ip remote here
    then (local_source, true)
    else if net.is4 remote
    then (net.text remote, false)
    else (net.prefix64 remote, false)
