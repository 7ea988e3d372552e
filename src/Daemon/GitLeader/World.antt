-- ===== src/Daemon/GitLeader/World.antt =====
-- The loops of the daemons of one workspace against the leases of the relay
-- (crates/daemon/src/git/leader.rs, crates/relay/src/leader/mod.rs). Requests and answers may be lost, loops
-- interleave at their awaits, and a shutdown, cut at its await too, may come at any of them.
pub mod Holds
pub mod Sound
pub mod Moves
pub mod Fresh
pub mod Stale
use scriptum.Prelude.{
  ℕ, ◌+◌, ◌-◌, ◌≤◌, ltb, Bool, true, false, Option, none, some, List, [], ◌∷◌, ◌==◌, nat_eq,
  if◌then◌else◌,
}
use scriptum.Prelude.Numbers.{Uuid, Instant}
use scriptum.Relay.Leader as Relay
use scriptum.Relay.Leader.{LeaseTable, AcquireResult, RenewResult, ReleaseResult}
use scriptum.Daemon.GitLeader.{
  AcquireResponse, RenewResponse, granted, denied, renewed, lost, connection_failed, Answer, ok,
  err, LeaderConfig, LeaderInner, start, after_renew, after_acquire, shutdown, after_release,
}

-- What becomes of one request.
pub data Network : Type 0 where
  works : Network
  request_lost : Network
  answer_lost : Network

-- The client: a granted or renewed lease is granted, every refusal to renew is a loss.
abbrev pub acquire_response : AcquireResult → AcquireResponse
acquire_response (AcquireResult.granted l) = granted l
acquire_response (AcquireResult.renewed l) = granted l
acquire_response (AcquireResult.denied h) = denied h

abbrev pub renew_response : RenewResult → RenewResponse
renew_response RenewResult.renewed = renewed
renew_response RenewResult.not_found = lost
renew_response RenewResult.wrong_holder = lost

abbrev pub over {ℓ} :
    {A B : Type ℓ} → (A → B) → Network → LeaseTable → LeaseTable × A → LeaseTable × Answer B
over f works table (table', a) = (table', ok (f a))
over f request_lost table (table', a) = (table, err connection_failed)
over f answer_lost table (table', a) = (table', err connection_failed)

-- Where a loop stands: about to read its lease, with the answer to a request of the given time, asleep
-- until woken, or left.
pub data Phase : Type 0 where
  ready : Phase
  renewing : Instant → Answer RenewResponse → Phase
  acquiring : Instant → Answer AcquireResponse → Phase
  sleeping : ℕ → Phase
  left : Phase

-- `releases_asked` and `releases_answered` count the shutdowns whose request to release is under way, and
-- those whose answer is. `confirmed_at` is the time of the last request that the relay granted or renewed, which the
-- program does not keep.
pub record Daemon : Type 0 where
  pub inner : LeaderInner
  pub phase : Phase
  pub stopping : Bool
  pub releases_asked : ℕ
  pub releases_answered : ℕ
  pub confirmed_at : Instant

pub record State : Type 0 where
  pub table : LeaseTable
  pub daemons : Uuid → Daemon

abbrev pub starting : Daemon
starting = record {
  inner = start;
  phase = ready;
  stopping = false;
  releases_asked = 0;
  releases_answered = 0;
  confirmed_at = 0;
}

abbrev pub begin : LeaseTable → State
begin table = record { table = table; daemons = λ c. starting }

abbrev pub update : Uuid → Daemon → (Uuid → Daemon) → Uuid → Daemon
update c d daemons x = if x == c then d else daemons x

pub data Event : Type 0 where
  asks : Uuid → Uuid → Network → Event
  continues : Uuid → Event
  wakes : Uuid → Event
  notices : Uuid → Event
  shuts_down : Uuid → Event
  releases : Uuid → Network → Event
  shut_down : Uuid → Event
  evicts : Event

module _ (config : Uuid → LeaderConfig) (ttl : ℕ) (w : Uuid) where
  -- The request at the top of the loop.
  abbrev pub ask_with :
      Uuid → Uuid → Network → Instant → LeaseTable → Option Uuid → LeaseTable × Phase
  ask_with c p net now table (some lease) =
      let (table', answer) = over renew_response net table (Relay.renew ttl w c lease now table) in
      (table', renewing now answer)
  ask_with c p net now table none =
      let (table', answer) = over acquire_response net table (Relay.acquire ttl w c p now table) in
      (table', acquiring now answer)

  abbrev pub confirms : Answer RenewResponse → Instant → Instant → Instant
  confirms (ok renewed) asked before = asked
  confirms other asked before = before

  -- After the answer.
  abbrev pub continue : LeaderConfig → Phase → Daemon → Daemon
  continue conf (renewing asked answer) d =
      let (inner, interval) = after_renew conf answer d.inner in
      record d {
        inner = inner;
        phase = sleeping interval;
        confirmed_at = confirms answer asked d.confirmed_at;
      }
  continue conf (acquiring asked answer) d =
      let (inner, interval) = after_acquire conf answer d.inner in
      record d { inner = inner; phase = sleeping interval; confirmed_at = asked }
  continue conf other d = d

  -- The branches of the `select`: the sleep, which may be taken when a shutdown has been signalled too,
  -- and the signal.
  abbrev pub woken : Phase → Phase
  woken (sleeping n) = ready
  woken other = other

  abbrev pub noticed : Phase → Bool → Phase
  noticed (sleeping n) true = left
  noticed other stopping = other

  abbrev pub put : Uuid → Daemon → LeaseTable → State → State
  put c d table s = record { table = table; daemons = update c d s.daemons }

  abbrev pub ask_in : Phase → Uuid → Uuid → Network → Instant → State → State
  ask_in ready c p net now s =
      let (table, phase) = ask_with c p net now s.table (s.daemons c).inner.current_lease_id in
      put c (record (s.daemons c) { phase = phase }) table s
  ask_in other c p net now s = s

  -- The request to release at the relay, if one is under way.
  abbrev pub let_go : Bool → Network → Uuid → Instant → LeaseTable → LeaseTable
  let_go false net c now table = table
  let_go true request_lost c now table = table
  let_go true other c now table = (Relay.release w c now table).0

  abbrev pub released : Daemon → Daemon
  released d =
      if ltb 0 d.releases_asked
      then record d {
        releases_asked = d.releases_asked - 1;
        releases_answered = d.releases_answered + 1;
      }
      else d

  abbrev pub ended : Daemon → Daemon
  ended d =
      if ltb 0 d.releases_answered
      then record d { inner = after_release d.inner; releases_answered = d.releases_answered - 1 }
      else d

  unfoldable pub step : Instant → Event → State → State
  unfolding after_renew after_acquire shutdown
  step now (asks c p net) s = ask_in (s.daemons c).phase c p net now s
  step now (continues c) s = put c (continue (config c) (s.daemons c).phase (s.daemons c)) s.table s
  step now (wakes c) s = let d = s.daemons c in put c (record d { phase = woken d.phase }) s.table s
  step now (notices c) s =
      let d = s.daemons c in put c (record d { phase = noticed d.phase d.stopping }) s.table s
  step now (shuts_down c) s =
      let d = s.daemons c in
      let (inner, asks_release) = shutdown d.inner in
      put c
        (record d {
          inner = inner;
          stopping = true;
          releases_asked = if asks_release then d.releases_asked + 1 else d.releases_asked;
        })
        s.table s
  step now (releases c net) s =
      let d = s.daemons c in
      put c (released d) (let_go (ltb 0 d.releases_asked) net c now s.table) s
  step now (shut_down c) s = let d = s.daemons c in put c (ended d) s.table s
  step now evicts s = record s { table = (Relay.evict_expired now s.table).0 }

  unfoldable pub run : List (Instant × Event) → State → State
  run [] s = s
  run ((now, event) ∷ events) s = run events (step now event s)

-- The clock does not go back.
abbrev pub Rising : Instant → List (Instant × Event) → Type 0
Rising t [] = Unit
Rising t ((now, event) ∷ events) = (t ≤ now) × Rising now events

abbrev pub last_time : Instant → List (Instant × Event) → Instant
last_time t [] = t
last_time t ((now, event) ∷ events) = last_time now events
