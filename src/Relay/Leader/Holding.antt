-- ===== src/Relay/Leader/Holding.antt =====
-- An active lease of one daemon under the calls of others.
use scriptum.Prelude.{
  ℕ, ◌+◌, ◌<◌, ◌≡◌, ◌≢◌, ◌⊎◌, inl, inr, refl, none, some, List, [], ◌∷◌, All, arith, nat_eq, ==_ne,
  ap, ◌∙◌, subst, sym,
}
use native.Mathlib.Decide.{ℕ_discrete}
use scriptum.Prelude.HashMap
use scriptum.Prelude.HashMap.{
  HashMap, Unique, keep_if, get-insert, get-remove, get-retain, Unique-insert, Unique-remove,
  Unique-retain,
}
use scriptum.Prelude.Numbers.{Uuid, Instant}
use scriptum.Relay.Leader.{
  LeaseRow, LeaseTable, AcquireResult, RenewResult, ReleaseResult, denied, acquire, renew, release,
  evict_expired, survives, upserted, proposal, is_renewable, is_releasable, renew_on, release_on,
  acquire_result,
}
use scriptum.Relay.Leader.Runs.{
  Call, acquires, renews, releases, evicts, Reply, acquired, renewal, let_go, with_reply, step, run,
}

-- Not a call of this client on this workspace.
abbrev pub OfOthers : Uuid → Uuid → Call → Type 0
OfOthers w c (acquires w' c' p) = (w ≢ w') ⊎ (c ≢ c')
OfOthers w c (renews w' c' l) = (w ≢ w') ⊎ (c ≢ c')
OfOthers w c (releases w' c') = (w ≢ w') ⊎ (c ≢ c')
OfOthers w c evicts = Unit

-- A call on the workspace is turned down in favour of the client.
abbrev pub TurnedDown : Uuid → Uuid → Call × Reply → Type 0
TurnedDown w c (acquires w' c' p, reply) = w ≡ w' → reply ≡ acquired (denied c)
TurnedDown w c (renews w' c' l, reply) = w ≡ w' → reply ≡ renewal RenewResult.wrong_holder
TurnedDown w c (releases w' c', reply) = w ≡ w' → reply ≡ let_go ReleaseResult.wrong_holder
TurnedDown w c (evicts, reply) = Unit

abbrev pub Before : Uuid → LeaseRow → Instant × Call → Type 0
Before w row (now, call) = (now < row.expires_at) × OfOthers w row.daemon_id call

-- What one call of another leaves and answers.
abbrev Kept : Uuid → LeaseRow → Call → LeaseTable × Reply → Type 0
Kept w row call (table, reply) =
    Unique table × (HashMap.get w table ≡ some row) × TurnedDown w row.daemon_id (call, reply)

-- An active row of another daemon is in conflict with every proposal.
upserted_kept :
    (ttl now : ℕ) (c p : Uuid) (row : LeaseRow)
    → now < row.expires_at
    → row.daemon_id ≢ c
    → upserted (some row) (proposal ttl c p now) now ≡ row
upserted_kept ttl now c p row lt ne = ground (arith, ==_ne row.daemon_id c ne)

pub acquire-denied :
    (ttl now : ℕ) (w c p : Uuid) (table : LeaseTable) (row : LeaseRow)
    → HashMap.get w table ≡ some row
    → now < row.expires_at
    → row.daemon_id ≢ c
    → acquire ttl w c p now table ≡ (HashMap.insert w row table, denied row.daemon_id)
unfolding acquire
acquire-denied ttl now w c p table row e lt ne = rw e (
    ap (λ (r : LeaseRow). (HashMap.insert w r table, acquire_result r c p))
      (upserted_kept ttl now c p row lt ne)
    ∙ ap (λ (a : AcquireResult). (HashMap.insert w row table, a))
        (rw (==_ne row.daemon_id c ne) refl))

pub renew-wrong_holder :
    (ttl now : ℕ) (w c l : Uuid) (table : LeaseTable) (row : LeaseRow)
    → HashMap.get w table ≡ some row
    → now < row.expires_at
    → row.daemon_id ≢ c
    → renew ttl w c l now table ≡ (table, RenewResult.wrong_holder)
unfolding renew
renew-wrong_holder ttl now w c l table row e lt ne = ground (arith, ==_ne row.daemon_id c ne)

pub release-wrong_holder :
    (now : ℕ) (w c : Uuid) (table : LeaseTable) (row : LeaseRow)
    → HashMap.get w table ≡ some row
    → now < row.expires_at
    → row.daemon_id ≢ c
    → release w c now table ≡ (table, ReleaseResult.wrong_holder)
unfolding release
release-wrong_holder now w c table row e lt ne = ground (arith, ==_ne row.daemon_id c ne)

-- A write to the row of one workspace leaves that of another.
abbrev pub LeavesOthers : Uuid → LeaseTable → LeaseTable → Type 0
LeavesOthers w table table' =
    Unique table' × ((v : Uuid) → v ≢ w → HashMap.get v table' ≡ HashMap.get v table)

insert-LeavesOthers :
    (w : Uuid) (row : LeaseRow) (table : LeaseTable)
    → Unique table
    → LeavesOthers w table (HashMap.insert w row table)
insert-LeavesOthers w row table u =
    (Unique-insert w row table u, λ v ne. ground (arith, get-insert w v row table))

remove-LeavesOthers :
    (w : Uuid) (table : LeaseTable) → Unique table → LeavesOthers w table (HashMap.remove w table)
remove-LeavesOthers w table u =
    (Unique-remove w table u, λ v ne. ground (arith, get-remove w v table))

pub acquire-LeavesOthers :
    (ttl now : ℕ) (w c p : Uuid) (table : LeaseTable)
    → Unique table
    → LeavesOthers w table (acquire ttl w c p now table).0
unfolding acquire
acquire-LeavesOthers ttl now w c p table u = insert-LeavesOthers w _ table u

pub renew-LeavesOthers :
    (ttl now : ℕ) (w c l : Uuid) (table : LeaseTable)
    → Unique table
    → LeavesOthers w table (renew ttl w c l now table).0
unfolding renew
renew-LeavesOthers ttl now w c l table u =
    elim (keep_if (is_renewable c l now) (HashMap.get w table))
      as (λ r. LeavesOthers w table (renew_on ttl w now table r).0) [
        | none ↦ (u, λ v ne. refl)
        | some row ↦ insert-LeavesOthers w (record row { expires_at = now + ttl }) table u
      ]

pub release-LeavesOthers :
    (now : ℕ) (w c : Uuid) (table : LeaseTable)
    → Unique table
    → LeavesOthers w table (release w c now table).0
unfolding release
release-LeavesOthers now w c table u =
    elim (keep_if (is_releasable c now) (HashMap.get w table))
      as (λ r. LeavesOthers w table (release_on w now table r).0) [
        | none ↦ (u, λ v ne. refl)
        | some row ↦ remove-LeavesOthers w table u
      ]

Kept-elsewhere :
    (w w' : Uuid) (row : LeaseRow) (call : Call) (table : LeaseTable) (after : LeaseTable × Reply)
    → HashMap.get w table ≡ some row
    → LeavesOthers w' table after.0
    → w ≢ w'
    → TurnedDown w row.daemon_id (call, after.1)
    → Kept w row call after
Kept-elsewhere w w' row call table after e l ne t = (l.0, l.1 w ne ∙ e, t)

not_holder : {w w' a c : Uuid} → w ≡ w' → (w ≢ w') ⊎ (a ≢ c) → a ≢ c
not_holder same (inl ne) = absurd (ne same)
not_holder same (inr ne) = ne

acquire-Kept :
    (ttl now : ℕ) (w w' c p : Uuid) (table : LeaseTable) (row : LeaseRow)
    → Unique table
    → HashMap.get w table ≡ some row
    → Before w row (now, acquires w' c p)
    → Kept w row (acquires w' c p) (step ttl now (acquires w' c p) table)
unfolding step
acquire-Kept ttl now w w' c p table row u e (lt, other) = elim (ℕ_discrete w w') [
  | no ne ↦
      Kept-elsewhere w w' row (acquires w' c p) table
        (with_reply acquired (acquire ttl w' c p now table)) e
        (acquire-LeavesOthers ttl now w' c p table u) ne (λ same. absurd (ne same))
  | yes same ↦
      subst (λ r. Kept w row (acquires w' c p) (with_reply acquired r))
        (sym (acquire-denied ttl now w' c p table row (rw (← same) e) lt (not_holder same other)))
        (Unique-insert w' row table u, ground (arith, get-insert w' w row table), λ h. refl)
]

renew-Kept :
    (ttl now : ℕ) (w w' c l : Uuid) (table : LeaseTable) (row : LeaseRow)
    → Unique table
    → HashMap.get w table ≡ some row
    → Before w row (now, renews w' c l)
    → Kept w row (renews w' c l) (step ttl now (renews w' c l) table)
unfolding step
renew-Kept ttl now w w' c l table row u e (lt, other) = elim (ℕ_discrete w w') [
  | no ne ↦
      Kept-elsewhere w w' row (renews w' c l) table
        (with_reply renewal (renew ttl w' c l now table)) e
        (renew-LeavesOthers ttl now w' c l table u) ne (λ same. absurd (ne same))
  | yes same ↦
      subst (λ r. Kept w row (renews w' c l) (with_reply renewal r))
        (sym
          (renew-wrong_holder ttl now w' c l table row (rw (← same) e) lt (not_holder same other)))
        (u, e, λ h. refl)
]

release-Kept :
    (ttl now : ℕ) (w w' c : Uuid) (table : LeaseTable) (row : LeaseRow)
    → Unique table
    → HashMap.get w table ≡ some row
    → Before w row (now, releases w' c)
    → Kept w row (releases w' c) (step ttl now (releases w' c) table)
unfolding step
release-Kept ttl now w w' c table row u e (lt, other) = elim (ℕ_discrete w w') [
  | no ne ↦
      Kept-elsewhere w w' row (releases w' c) table (with_reply let_go (release w' c now table)) e
        (release-LeavesOthers now w' c table u) ne (λ same. absurd (ne same))
  | yes same ↦
      subst (λ r. Kept w row (releases w' c) (with_reply let_go r))
        (sym (release-wrong_holder now w' c table row (rw (← same) e) lt (not_holder same other)))
        (u, e, λ h. refl)
]

step-Kept :
    (ttl now : ℕ) (call : Call) (table : LeaseTable) (w : Uuid) (row : LeaseRow)
    → Unique table
    → HashMap.get w table ≡ some row
    → Before w row (now, call)
    → Kept w row call (step ttl now call table)
unfolding step evict_expired
step-Kept ttl now (acquires w' c p) table w row u e b =
    acquire-Kept ttl now w w' c p table row u e b
step-Kept ttl now (renews w' c l) table w row u e b = renew-Kept ttl now w w' c l table row u e b
step-Kept ttl now (releases w' c) table w row u e b = release-Kept ttl now w w' c table row u e b
step-Kept ttl now evicts table w row u e (lt, other) =
    (Unique-retain (survives now) table u, ground (arith, get-retain (survives now) w table u), tt)

-- While a lease is active, whatever the other daemons call on its workspace, and whatever anybody
-- calls on other workspaces or evicts, the lease stays as it is, every acquisition of the
-- workspace is denied with the holder's name, and every renewal and release is turned down.
pub run_keeps_leader :
    (ttl : ℕ) (calls : List (Instant × Call)) (table : LeaseTable) (w : Uuid) (row : LeaseRow)
    → Unique table
    → HashMap.get w table ≡ some row
    → All (Before w row) calls
    → (HashMap.get w (run ttl calls table).0 ≡ some row)
      × All (TurnedDown w row.daemon_id) (run ttl calls table).1
unfolding run
run_keeps_leader ttl [] table w row u e before = (e, tt)
run_keeps_leader ttl ((now, call) ∷ calls) table w row u e (b, before) =
    let k = step-Kept ttl now call table w row u e b in
    let rest = run_keeps_leader ttl calls (step ttl now call table).0 w row k.0 k.1 before in
    (rest.0, (k.2, rest.1))
