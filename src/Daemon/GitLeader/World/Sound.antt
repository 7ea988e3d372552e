-- ===== src/Daemon/GitLeader/World/Sound.antt =====
-- What the loops keep to: the invariant of the daemons and the table.
use native.Mathlib.Decide.{ℕ_discrete}
use scriptum.Prelude.{ℕ, ◌≡◌, ◌≢◌, false, none, some, nat_eq, ==_refl, ==_ne}
use scriptum.Prelude.HashMap.{Unique}
use scriptum.Prelude.Numbers.{Uuid, Instant}
use scriptum.Relay.Leader.{LeaseTable}
use scriptum.Daemon.GitLeader.{granted, renewed, ok, leader, LeaderConfig}
use scriptum.Daemon.GitLeader.World.{
  Phase, ready, renewing, acquiring, sleeping, left, Daemon, State, put,
}
use scriptum.Daemon.GitLeader.World.Holds.{Holds}

module _ (config : Uuid → LeaderConfig) (ttl : ℕ) (w : Uuid) where
  -- What an answer that is not handled yet says of the table.
  abbrev pub PendingHolds : LeaseTable → Instant → Uuid → Daemon → Phase → Type 0
  PendingHolds table now c d (acquiring asked answer) =
      (d.inner.current_lease_id ≡ none)
      × ((l : Uuid) → answer ≡ ok (granted l) → Holds ttl w table now c asked)
  PendingHolds table now c d (renewing asked answer) =
      (l : Uuid)
      → d.inner.current_lease_id ≡ some l
      → answer ≡ ok renewed
      → Holds ttl w table now c asked
  PendingHolds table now c d other = Unit

  -- Of one daemon that is not being shut down: it leads exactly with a lease, and its confirmed lease is held.
  pub record IsSound (table : LeaseTable) (now : Instant) (c : Uuid) (d : Daemon) : Type 0 where
    pub with_lease : (l : Uuid) → d.inner.state ≡ leader l → d.inner.current_lease_id ≡ some l
    pub held :
        (l : Uuid) → d.inner.current_lease_id ≡ some l → Holds ttl w table now c d.confirmed_at
    pub pending : PendingHolds table now c d d.phase
    pub no_release : (d.releases_asked ≡ 0) × (d.releases_answered ≡ 0)

  abbrev pub AllSound : Instant → State → Type 0
  AllSound now s =
      Unique s.table
      × ((c : Uuid) → (s.daemons c).stopping ≡ false → IsSound s.table now c (s.daemons c))

  -- From one table to another in which the daemon still holds what it held.
  pub move-IsSound :
      (a b : LeaseTable) (t now : Instant) (c : Uuid) (d : Daemon)
      → ((since : ℕ) → Holds ttl w a t c since → Holds ttl w b now c since)
      → IsSound a t c d
      → IsSound b now c d
  move-IsSound a b t now c d keep s = record {
    with_lease = s.with_lease;
    held = λ l e. keep d.confirmed_at (s.held l e);
    pending = move_pending d.phase s.pending;
    no_release = s.no_release;
  }
    where
      move_pending : (p : Phase) → PendingHolds a t c d p → PendingHolds b now c d p
      move_pending (acquiring asked answer) (n, h) = (n, λ l e. keep asked (h l e))
      move_pending (renewing asked answer) h = λ l e f. keep asked (h l e f)
      move_pending ready h = tt
      move_pending (sleeping n) h = tt
      move_pending left h = tt

  pub put-AllSound :
      (now : Instant) (c : Uuid) (d : Daemon) (table : LeaseTable) (s : State)
      → Unique table
      → (d.stopping ≡ false → IsSound table now c d)
      → ((x : Uuid) → x ≢ c → (s.daemons x).stopping ≡ false → IsSound table now x (s.daemons x))
      → AllSound now (put config ttl w c d table s)
  put-AllSound now c d table s u own others = (
    u,
    λ x. elim (ℕ_discrete x c) [
      | yes same ↦ rw same (rw (==_refl c) own)
      | no ne ↦ rw (==_ne x c ne) (others x ne)
    ],
  )
