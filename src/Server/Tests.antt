-- ===== src/Server/Tests.antt =====
-- Tests of internal/server and internal/hub: what the theorems say at concrete entries, tokens and
-- hubs.
mod Links
mod Streams
mod Auth
mod Keys
mod Places
use nox_app.Base.{
  ℕ, ◌≤◌, ◌≡◌, refl, Bool, true, false, not, Option, none, some, List, [], ◌∷◌, ◌++◌, arith,
  is_none, same, same→eq, length,
}
use nox_app.Sql.{count, where_rows}
use nox_app.Server.Entry.{
  PendingChannel, Entry, new_entry, admit, leave, cut_in_source, evict, join, put_source,
  drop_source, drop_one, count_shed, forget, oldest_from, is_from, has_conn, held_by, local_source,
}
use nox_app.Server.Entry.Sound.{IsSound}
use nox_app.Server.Entry.Limits.{IsWithinLimits}
use nox_app.Server.Entry.Admission.{admit-returns}
use nox_app.Server.Entry.Promises.{
  Reached, opened, arrived, over, Reached-IsWithinLimits, admit_own_share,
}

abbrev phone_pending : PendingChannel
phone_pending = record {
  conn = 1;
  accepted = 100;
  source = "192.168.1.7";
  is_local = false;
  first_byte_by = some 150;
}

abbrev tor_pending : PendingChannel
tor_pending = record {
  conn = 2;
  accepted = 120;
  source = local_source;
  is_local = true;
  first_byte_by = none;
}

-- An entry whose sources have one place each.
abbrev narrow_entry : Entry
narrow_entry = record {
  max_pending = 3;
  max_per_source = 1;
  max_local = 1;
  first_byte = 50;
  budget = 300;
  pending = phone_pending ∷ tor_pending ∷ [];
  by_source = ("192.168.1.7", 1) ∷ (local_source, 1) ∷ [];
  shed = record { in_source = 0; local = 0; evicted = 0 };
  shed_flush = false;
}

apart : same "192.168.1.7" local_source ≡ false
unfolding nox_app.Base.key_dec
apart = refl

narrow_entry-IsWithinLimits : IsWithinLimits narrow_entry
unfolding held_by count
narrow_entry-IsWithinLimits = record {
  sound = record {
    counts = λ t. ground (arith, apart, same→eq "192.168.1.7" t, same→eq local_source t);
    once = λ c. ground arith;
  };
  room = omega arith;
  shares = λ t. ground (arith, apart, same→eq "192.168.1.7" t, same→eq local_source t);
  some_place = omega arith;
  some_per_source = omega arith;
  some_local = omega arith;
}

admit-returns_example : is_none (admit 3 200 "192.168.1.7" false narrow_entry) ≡ false
admit-returns_example = admit-returns 3 200 "192.168.1.7" false narrow_entry

-- The first connection of a server's life.
abbrev first_entry : Entry
first_entry = record (new_entry 300) {
  pending =
      record {
        conn = 1;
        accepted = 100;
        source = "192.168.1.7";
        is_local = false;
        first_byte_by = some 400;
      }
      ∷ [];
  by_source = ("192.168.1.7", 1) ∷ [];
}

Reached-IsWithinLimits_example : IsWithinLimits first_entry
unfolding admit cut_in_source evict join count held_by put_source drop_source drop_one count_shed
    forget oldest_from where_rows nox_app.Base.key_dec nox_app.Sql.select nox_app.Sql.delete
Reached-IsWithinLimits_example =
    Reached-IsWithinLimits first_entry
      (arrived 1 100 "192.168.1.7" {e = new_entry 300} {closed = []} (opened 300) refl refl)

-- A second connection of the phone's cuts the first, and not tor's.
abbrev after_second : Entry
after_second = record narrow_entry {
  pending =
      tor_pending
      ∷ record {
        conn = 3;
        accepted = 200;
        source = "192.168.1.7";
        is_local = false;
        first_byte_by = some 250;
      }
      ∷ [];
  by_source = ("192.168.1.7", 1) ∷ (local_source, 1) ∷ [];
  shed = record { in_source = 1; local = 0; evicted = 0 };
  shed_flush = true;
}

admit_own_share_example :
    where_rows (λ p. not (is_from "192.168.1.7" p)) after_second.pending
    ≡ where_rows (λ p. not (is_from "192.168.1.7" p)) narrow_entry.pending
unfolding admit cut_in_source evict join count held_by put_source drop_source drop_one count_shed
    forget oldest_from where_rows nox_app.Base.key_dec nox_app.Sql.select nox_app.Sql.delete
admit_own_share_example =
    admit_own_share 3 200 "192.168.1.7" false narrow_entry after_second (1 ∷ [])
      narrow_entry-IsWithinLimits (omega arith) refl
