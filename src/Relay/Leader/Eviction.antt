-- ===== src/Relay/Leader/Eviction.antt =====
-- The eviction of expired leases frees rows and is never noticed.
use scriptum.Prelude.{
  ℕ, ◌+◌, ◌≤◌, ◌≡◌, refl, Bool, true, false, Option, none, some, List, [], ◌∷◌, filter, arith,
  nat_eq, if◌then◌else◌, is_some, ap, ◌∙◌, subst, sym,
}
use scriptum.Prelude.HashMap
use scriptum.Prelude.HashMap.{
  HashMap, Unique, keep_if, get-insert, get-remove, get-retain, Unique-insert, Unique-remove,
  Unique-retain,
}
use scriptum.Prelude.Numbers.{Uuid, Instant}
use scriptum.Relay.Leader.{
  LeaseRow, LeaseTable, RenewResult, ReleaseResult, acquire, renew, release, evict_expired,
  survives, is_active, upserted, proposal, is_renewable, is_releasable, renew_on, release_on,
  active_row,
}
use scriptum.Relay.Leader.Runs.{
  Call, acquires, renews, releases, evicts, Reply, renewal, let_go, with_reply, step, run,
}

-- The same active rows.
abbrev Same : Instant → LeaseTable → LeaseTable → Type 0
Same now a b = (w : Uuid) → active_row w now a ≡ active_row w now b

abbrev active : Instant → Option LeaseRow → Option LeaseRow
active now = keep_if (is_active now)

active_later : {t t' : ℕ} (r : Option LeaseRow) → t ≤ t' → active t' (active t r) ≡ active t' r
active_later none le = refl
active_later (some row) le = ground arith

Same-later : {t t' : ℕ} (a b : LeaseTable) → t ≤ t' → Same t a b → Same t' a b
unfolding active_row
Same-later {t} {t'} a b le same w =
    sym (active_later (HashMap.get w a) le)
    ∙ (ap (active t') (same w) ∙ active_later (HashMap.get w b) le)

-- What each statement reads of a row, it reads of an active one.
upserted-active :
    (old : Option LeaseRow) (row : LeaseRow) (now : ℕ)
    → upserted (active now old) row now ≡ upserted old row now
upserted-active none row now = refl
upserted-active (some old) row now = ground arith

is_renewable-active :
    (c l now : ℕ) (row : Option LeaseRow)
    → keep_if (is_renewable c l now) (active now row) ≡ keep_if (is_renewable c l now) row
is_renewable-active c l now none = refl
is_renewable-active c l now (some row) = ground arith

is_releasable-active :
    (c now : ℕ) (row : Option LeaseRow)
    → keep_if (is_releasable c now) (active now row) ≡ keep_if (is_releasable c now) row
is_releasable-active c now none = refl
is_releasable-active c now (some row) = ground arith

-- What a call leaves of two tables, and what it answers.
abbrev Agree : Instant → LeaseTable × Reply → LeaseTable × Reply → Type 0
Agree now (a, r) (b, s) = Unique a × Unique b × Same now a b × (r ≡ s)

insert-Same :
    (now : ℕ) (w : Uuid) (row : LeaseRow) (a b : LeaseTable)
    → Same now a b
    → Same now (HashMap.insert w row a) (HashMap.insert w row b)
unfolding active_row
insert-Same now w row a b same v =
    ground (arith, get-insert w v row a, get-insert w v row b, same v)

remove-Same :
    (now : ℕ) (w : Uuid) (a b : LeaseTable)
    → Same now a b
    → Same now (HashMap.remove w a) (HashMap.remove w b)
unfolding active_row
remove-Same now w a b same v = ground (arith, get-remove w v a, get-remove w v b, same v)

evict-Same : (now : ℕ) (a : LeaseTable) → Unique a → Same now (HashMap.retain (survives now) a) a
unfolding active_row
evict-Same now a u w =
    ap (active now) (get-retain (survives now) w a u)
    ∙ active_later {t = now} {t' = now} (HashMap.get w a) (omega arith)

acquire-Agree :
    (ttl now w c p : ℕ) (a b : LeaseTable)
    → Unique a
    → Unique b
    → Same now a b
    → Agree now (step ttl now (acquires w c p) a) (step ttl now (acquires w c p) b)
unfolding step acquire active_row
acquire-Agree ttl now w c p a b u v same =
    let x = proposal ttl c p now in
    let e : upserted (HashMap.get w a) x now ≡ upserted (HashMap.get w b) x now =
      sym (upserted-active (HashMap.get w a) x now)
      ∙ (ap (λ r. upserted r x now) (same w) ∙ upserted-active (HashMap.get w b) x now) in
    let row = upserted (HashMap.get w b) x now in
    rw e (Unique-insert w row a u, Unique-insert w row b v, insert-Same now w row a b same, refl)

renew_on-Agree :
    (ttl now w : ℕ) (found : Option LeaseRow) (a b : LeaseTable)
    → Unique a
    → Unique b
    → Same now a b
    → Agree now
        (with_reply renewal (renew_on ttl w now a found))
        (with_reply renewal (renew_on ttl w now b found))
renew_on-Agree ttl now w none a b u v same = (
  u,
  v,
  same,
  ap (λ r. renewal (if is_some r then RenewResult.wrong_holder else RenewResult.not_found))
      (same w),
)
renew_on-Agree ttl now w (some found) a b u v same =
    let row : LeaseRow = record found { expires_at = now + ttl } in
    (Unique-insert w row a u, Unique-insert w row b v, insert-Same now w row a b same, refl)

renew-Agree :
    (ttl now w c l : ℕ) (a b : LeaseTable)
    → Unique a
    → Unique b
    → Same now a b
    → Agree now (step ttl now (renews w c l) a) (step ttl now (renews w c l) b)
unfolding step renew active_row
renew-Agree ttl now w c l a b u v same =
    let found = keep_if (is_renewable c l now) (HashMap.get w b) in
    let e : found ≡ keep_if (is_renewable c l now) (HashMap.get w a) =
      sym (is_renewable-active c l now (HashMap.get w b))
      ∙ (ap (keep_if (is_renewable c l now)) (sym (same w))
          ∙ is_renewable-active c l now (HashMap.get w a)) in
    subst
      (λ r. Agree now (with_reply renewal (renew_on ttl w now a r)) (step ttl now (renews w c l) b))
      e (renew_on-Agree ttl now w found a b u v same)

release_on-Agree :
    (now w : ℕ) (found : Option LeaseRow) (a b : LeaseTable)
    → Unique a
    → Unique b
    → Same now a b
    → Agree now
        (with_reply let_go (release_on w now a found))
        (with_reply let_go (release_on w now b found))
release_on-Agree now w none a b u v same = (
  u,
  v,
  same,
  ap (λ r. let_go (if is_some r then ReleaseResult.wrong_holder else ReleaseResult.not_found))
      (same w),
)
release_on-Agree now w (some found) a b u v same =
    (Unique-remove w a u, Unique-remove w b v, remove-Same now w a b same, refl)

release-Agree :
    (ttl now w c : ℕ) (a b : LeaseTable)
    → Unique a
    → Unique b
    → Same now a b
    → Agree now (step ttl now (releases w c) a) (step ttl now (releases w c) b)
unfolding step release active_row
release-Agree ttl now w c a b u v same =
    let found = keep_if (is_releasable c now) (HashMap.get w b) in
    let e : found ≡ keep_if (is_releasable c now) (HashMap.get w a) =
      sym (is_releasable-active c now (HashMap.get w b))
      ∙ (ap (keep_if (is_releasable c now)) (sym (same w))
          ∙ is_releasable-active c now (HashMap.get w a)) in
    subst
      (λ r. Agree now (with_reply let_go (release_on w now a r)) (step ttl now (releases w c) b)) e
      (release_on-Agree now w found a b u v same)

-- The calls of the daemons, without the evictions.
abbrev pub is_request : Call → Bool
is_request evicts = false
is_request other = true

abbrev pub requests : List (Instant × Call) → List (Instant × Call)
requests = filter (λ (call : Instant × Call). is_request call.1)

abbrev pub answers : List (Call × Reply) → List (Call × Reply)
answers = filter (λ (reply : Call × Reply). is_request reply.0)

-- The clock does not go back.
abbrev pub Rising : Instant → List (Instant × Call) → Type 0
Rising t [] = Unit
Rising t ((now, call) ∷ calls) = (t ≤ now) × Rising now calls

run-Same :
    (ttl t : ℕ) (calls : List (Instant × Call)) (a b : LeaseTable)
    → Unique a
    → Unique b
    → Same t a b
    → Rising t calls
    → answers (run ttl calls a).1 ≡ (run ttl (requests calls) b).1
unfolding run step evict_expired
run-Same ttl t [] a b u v same up = refl
run-Same ttl t ((now, acquires w c p) ∷ calls) a b u v same (le, up) =
    let g = acquire-Agree ttl now w c p a b u v (Same-later a b le same) in
    rw (g.3, run-Same ttl now calls _ _ g.0 g.1 g.2 up) refl
run-Same ttl t ((now, renews w c l) ∷ calls) a b u v same (le, up) =
    let g = renew-Agree ttl now w c l a b u v (Same-later a b le same) in
    rw (g.3, run-Same ttl now calls _ _ g.0 g.1 g.2 up) refl
run-Same ttl t ((now, releases w c) ∷ calls) a b u v same (le, up) =
    let g = release-Agree ttl now w c a b u v (Same-later a b le same) in
    rw (g.3, run-Same ttl now calls _ _ g.0 g.1 g.2 up) refl
run-Same ttl t ((now, evicts) ∷ calls) a b u v same (le, up) =
    let kept = HashMap.retain (survives now) a in
    run-Same ttl now calls kept b (Unique-retain (survives now) a u) v
      (λ w. evict-Same now a u w ∙ Same-later a b le same w) up

-- The answers to the requests of daemons, at times that do not go back, are the same with and
-- without the evictions of expired leases between them.
pub answers_without_evictions :
    (ttl t : ℕ) (calls : List (Instant × Call)) (table : LeaseTable)
    → Unique table
    → Rising t calls
    → answers (run ttl calls table).1 ≡ (run ttl (requests calls) table).1
answers_without_evictions ttl t calls table u up =
    run-Same ttl t calls table table u u (λ w. refl) up
