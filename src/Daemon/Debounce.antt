-- ===== src/Daemon/Debounce.antt =====
-- crates/daemon/src/watcher/debounce.rs: the debouncer of file system events. A path and the kind of an
-- event are compared and copied only, so they are types of the caller.
pub mod Delivery
mod Tests
use scriptum.Prelude.{
  ℕ, ◌+◌, ◌-◌, Bool, true, false, not, Option, none, some, List, [], ◌∷◌, map, filter, length, min,
  max, leb, if◌then◌else◌, Eq,
}
use scriptum.Prelude.HashMap
use scriptum.Prelude.HashMap.{HashMap}
use scriptum.Prelude.Numbers.{Instant}

-- In milliseconds.
abbrev pub default_debounce_ms : ℕ
default_debounce_ms = 100

abbrev pub min_debounce_ms : ℕ
min_debounce_ms = 50

abbrev pub max_debounce_ms : ℕ
max_debounce_ms = 500

-- `clamp`.
abbrev pub with_millis : ℕ → ℕ
with_millis ms = max min_debounce_ms (min ms max_debounce_ms)

pub record PendingEvent (Kind : Type 0) : Type 0 where
  pub kind : Kind
  pub last_seen : Instant

pub record RawFsEvent (FilePath Kind : Type 0) : Type 0 where
  pub kind : Kind
  pub path : FilePath

pub record Debouncer (FilePath Kind : Type 0) : Type 0 where
  pub window : ℕ
  pub pending : HashMap FilePath (PendingEvent Kind)

-- The window of a pending event has passed. `duration_since` stops at 0.
abbrev pub is_ready : {Kind : Type 0} → ℕ → Instant → PendingEvent Kind → Bool
is_ready window now pending = leb window (now - pending.last_seen)

abbrev pub earliest : Option Instant → Instant → Option Instant
earliest none t = some t
earliest (some s) t = some (min s t)

module _ {FilePath Kind : Type 0} ⦃e : Eq FilePath⦄ where
  abbrev pub new : ℕ → Debouncer FilePath Kind
  new window = record { window = window; pending = [] }

  abbrev pub push_at :
      RawFsEvent FilePath Kind → Instant → Debouncer FilePath Kind → Debouncer FilePath Kind
  push_at event now d = record d {
    pending = HashMap.insert event.path (record { kind = event.kind; last_seen = now }) d.pending;
  }

  abbrev pub event_of : FilePath × PendingEvent Kind → RawFsEvent FilePath Kind
  event_of (path, pending) = record { kind = pending.kind; path = path }

  abbrev pub entry_ready : ℕ → Instant → FilePath × PendingEvent Kind → Bool
  entry_ready window now (path, pending) = is_ready window now pending

  abbrev pub stays : ℕ → Instant → FilePath → PendingEvent Kind → Bool
  stays window now path pending = not (is_ready window now pending)

  -- `retain`, with the events that it takes out.
  unfoldable pub drain_ready_at :
      Instant → Debouncer FilePath Kind → Debouncer FilePath Kind × List (RawFsEvent FilePath Kind)
  drain_ready_at now d = (
    record d { pending = HashMap.retain (stays d.window now) d.pending },
    map event_of (filter (entry_ready d.window now) d.pending),
  )

  abbrev pub pending_count : Debouncer FilePath Kind → ℕ
  pending_count d = length d.pending

  unfoldable pub next_deadline_of : ℕ → HashMap FilePath (PendingEvent Kind) → Option Instant
  next_deadline_of window [] = none
  next_deadline_of window ((path, pending) ∷ rest) =
      earliest (next_deadline_of window rest) (pending.last_seen + window)

  abbrev pub next_deadline : Debouncer FilePath Kind → Option Instant
  next_deadline d = next_deadline_of d.window d.pending
