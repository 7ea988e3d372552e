-- ===== src/Daemon/GitLeader/World/Holds.antt =====
-- A daemon that holds the lease in the table of the relay, under the requests of all.
use scriptum.Prelude.{
  ℕ, ◌+◌, ◌≤◌, ◌<◌, ◌≡◌, ◌≢◌, refl, sym, ap, ◌∙◌, subst, Option, none, some, arith, nat_eq, is_some,
  Option-cases, inl, inr,
}
use scriptum.Prelude.HashMap
use scriptum.Prelude.HashMap.{Unique, keep_if, get-insert_self, get-retain, Unique-retain}
use scriptum.Prelude.Numbers.{Uuid, Instant}
use scriptum.Relay.Leader as Relay
use scriptum.Relay.Leader.{
  LeaseRow, LeaseTable, upserted, proposal, is_renewable, renew_on, survives, current_leader,
  acquire_result, active_row,
}
use scriptum.Relay.Leader.Holding.{release-wrong_holder}
use scriptum.Daemon.GitLeader.World.{
  Network, works, request_lost, answer_lost, over, acquire_response, renew_response,
}
use scriptum.Daemon.GitLeader.{granted, renewed}

module _ (ttl : ℕ) (w : Uuid) where
  -- The active row is the daemon's, and lasts until the time to live from `since` has passed.
  abbrev pub Held : LeaseTable → Uuid → Instant → Type 0
  Held table c since =
      (row : LeaseRow) × (HashMap.get w table ≡ some row)
      × (row.daemon_id ≡ c)
      × (since + ttl ≤ row.expires_at)

  abbrev pub Holds : LeaseTable → Instant → Uuid → Instant → Type 0
  Holds table now c since = (since ≤ now) × (now < since + ttl → Held table c since)

  pub Holds-later :
      {t now : ℕ} (table : LeaseTable) (c : Uuid) (since : ℕ)
      → t ≤ now
      → Holds table t c since
      → Holds table now c since
  Holds-later table c since le (past, held) = (omega arith, λ lt. held (omega arith))

  upserted-Held :
      (now since : ℕ) (c d p : Uuid) (row : LeaseRow)
      → row.daemon_id ≡ c
      → since ≤ now
      → now < since + ttl
      → since + ttl ≤ row.expires_at
      → ((upserted (some row) (proposal ttl d p now) now).daemon_id ≡ c)
        × (since + ttl ≤ (upserted (some row) (proposal ttl d p now) now).expires_at)
  upserted-Held now since c d p row e past lt le = ground arith

  pub acquire-Holds :
      (now since : ℕ) (c d p : Uuid) (table : LeaseTable)
      → Holds table now c since
      → Holds (Relay.acquire ttl w d p now table).0 now c since
  unfolding Relay.acquire
  acquire-Holds now since c d p table (past, held) = (
    past,
    λ lt.
        let (row, e, mine, le) = held lt in
        let row' = upserted (HashMap.get w table) (proposal ttl d p now) now in
        let u = upserted-Held now since c d p row mine past lt le in
        (row', get-insert_self w row' table, rw e u.0, rw e u.1),
  )

  -- The row that a renewal finds is the row of the workspace.
  renewable_found :
      (d l now : ℕ) (old : Option LeaseRow) (row : LeaseRow)
      → keep_if (is_renewable d l now) old ≡ some row
      → (old ≡ some row) × (row.daemon_id ≡ d)
  renewable_found d l now none row e = cc
  renewable_found d l now (some old) row e = ground arith

  pub renew-Holds :
      (now since : ℕ) (c d l : Uuid) (table : LeaseTable)
      → Holds table now c since
      → Holds (Relay.renew ttl w d l now table).0 now c since
  unfolding Relay.renew
  renew-Holds now since c d l table (past, held) =
      elim (Option-cases (keep_if (is_renewable d l now) (HashMap.get w table))) [
        | inl e ↦ subst (λ r. Holds (renew_on ttl w now table r).0 now c since) (sym e) (past, held)
        | inr (found, e) ↦
            subst (λ r. Holds (renew_on ttl w now table r).0 now c since) (sym e)
              (
                past,
                λ lt.
                    let (row, at, mine, le) = held lt in
                    let f = renewable_found d l now (HashMap.get w table) found e in
                    let row' : LeaseRow = record found { expires_at = now + ttl } in
                    (row', get-insert_self w row' table, ground (arith, f.0), omega arith),
              )
      ]

  pub release-Holds :
      (now since : ℕ) (c d : Uuid) (table : LeaseTable)
      → c ≢ d
      → Holds table now c since
      → Holds (Relay.release w d now table).0 now c since
  release-Holds now since c d table ne (past, held) = (
    past,
    λ lt.
        let (row, e, mine, le) = held lt in
        let kept = release-wrong_holder now w d table row e (omega arith) (rw mine ne) in
        (row, ap (λ (r : LeaseTable × Relay.ReleaseResult). HashMap.get w r.0) kept ∙ e, mine, le),
  )

  pub evict-Holds :
      (now since : ℕ) (c : Uuid) (table : LeaseTable)
      → Unique table
      → Holds table now c since
      → Holds (Relay.evict_expired now table).0 now c since
  unfolding Relay.evict_expired
  evict-Holds now since c table u (past, held) = (
    past,
    λ lt.
        let (row, e, mine, le) = held lt in
        (row, ground (arith, get-retain (survives now) w table u), mine, le),
  )

  upserted_own :
      (now : ℕ) (c p : Uuid) (old : Option LeaseRow) (l : Uuid)
      → acquire_response (acquire_result (upserted old (proposal ttl c p now) now) c p) ≡ granted l
      → ((upserted old (proposal ttl c p now) now).daemon_id ≡ c)
        × (now + ttl ≤ (upserted old (proposal ttl c p now) now).expires_at)
  upserted_own now c p none l e = (refl, omega arith)
  upserted_own now c p (some old) l e = ground arith

  refused_lost :
      (now : ℕ) (table : LeaseTable) → renew_response (renew_on ttl w now table none).1 ≢ renewed
  refused_lost now table e = elim (Option-cases (active_row w now table)) [
    | inl n ↦ let z = rw (n, is_some) at e in cc
    | inr (row, f) ↦ let z = rw (f, is_some) at e in cc
  ]

  -- A granted or renewed lease is held.
  pub acquired-Holds :
      (now : ℕ) (c p : Uuid) (table : LeaseTable) (l : Uuid)
      → acquire_response (Relay.acquire ttl w c p now table).1 ≡ granted l
      → Holds (Relay.acquire ttl w c p now table).0 now c now
  unfolding Relay.acquire
  acquired-Holds now c p table l e =
      let row = upserted (HashMap.get w table) (proposal ttl c p now) now in
      let own = upserted_own now c p (HashMap.get w table) l e in
      (omega arith, λ lt. (row, get-insert_self w row table, own.0, own.1))

  pub renewed-Holds :
      (now : ℕ) (c l : Uuid) (table : LeaseTable)
      → renew_response (Relay.renew ttl w c l now table).1 ≡ renewed
      → Holds (Relay.renew ttl w c l now table).0 now c now
  unfolding Relay.renew
  renewed-Holds now c l table e =
      elim (Option-cases (keep_if (is_renewable c l now) (HashMap.get w table))) [
        | inl n ↦ absurd (
            refused_lost now table
              (subst (λ r. renew_response (renew_on ttl w now table r).1 ≡ renewed) n e))
        | inr (found, f) ↦
            subst (λ r. Holds (renew_on ttl w now table r).0 now c now) (sym f)
              (
                omega arith,
                λ lt.
                    let row' : LeaseRow = record found { expires_at = now + ttl } in
                    (
                      row',
                      get-insert_self w row' table,
                      (renewable_found c l now (HashMap.get w table) found f).1,
                      omega arith,
                    ),
              )
      ]

  -- What holds of the table before and after a request holds whatever the network does.
  pub over_table {ℓ} :
      {A B : Type 0} (P : LeaseTable → Type ℓ) (f : A → B) (net : Network) (table : LeaseTable)
      (served : LeaseTable × A)
      → P table
      → P served.0
      → P (over f net table served).0
  over_table P f works table served p q = q
  over_table P f request_lost table served p q = p
  over_table P f answer_lost table served p q = q
