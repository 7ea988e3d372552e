-- ===== src/Relay/Idempotency/Replay.antt =====
-- A request that was answered is answered alike until its row expires, and is not run again.
use scriptum.Prelude.{
  ℕ, ◌+◌, ◌≤◌, ◌<◌, ◌≡◌, refl, sym, ap, subst, Bool, true, false, inl, inr, String, Option, none,
  some, List, [], ◌∷◌, length, ltb, ◌==◌, Eq, nat_eq, string_eq, pair_eq, ==_refl, arith,
  if◌then◌else◌, Bool-cases,
}
use scriptum.Prelude.HashMap
use scriptum.Prelude.HashMap.{HashMap, get-insert, get-insert_self, get-remove}
use scriptum.Prelude.Numbers.{Instant}
use scriptum.Relay.Idempotency.{
  Request, Response, respond, IdempotencyDbEntry, Scope, request_scope, Table, Writes, both,
  first_only, neither, Json, buffered, live_entry, load_db_entry, deleted_expired, inserted,
  insert_db_entry, response_body_to_json, replay_response, stored, remember, processed, looked_up,
  keyed, idempotency_db_middleware, idempotency_key_header, max_hash_body_bytes,
}

module _ {K Value : Type 0} ⦃e : Eq K⦄ where
  -- The row of a key.
  abbrev pub Has : K → IdempotencyDbEntry Value → HashMap K (IdempotencyDbEntry Value) → Type 0
  Has key entry table = HashMap.get key table ≡ some entry

  deleted-Has :
      (key other : K) (entry : IdempotencyDbEntry Value) (now : Instant)
      (table : HashMap K (IdempotencyDbEntry Value))
      → now < entry.expires_at
      → Has key entry table
      → Has key entry (deleted_expired other now (HashMap.get other table) table)
  deleted-Has key other entry now table lt h =
      ground (arith, get-remove other key table, e.test_iff other key)

  inserted-Has :
      (key other : K) (entry new : IdempotencyDbEntry Value)
      (table : HashMap K (IdempotencyDbEntry Value))
      → Has key entry table
      → Has key entry (inserted other new (HashMap.get other table) table)
  inserted-Has key other entry new table h =
      ground (arith, get-insert other key new table, e.test_iff other key)

  -- The two writes leave a row of the key, if there was none that is live.
  written-Has :
      (key : K) (entry : IdempotencyDbEntry Value) (now : Instant)
      (table : HashMap K (IdempotencyDbEntry Value))
      → live_entry now (HashMap.get key table) ≡ none
      → let table' = deleted_expired key now (HashMap.get key table) table in
        Has key entry (inserted key entry (HashMap.get key table') table')
  written-Has key entry now table h = ground (
    arith,
    get-remove key key table,
    ==_refl key,
    get-insert_self key entry table,
    get-insert_self key entry (HashMap.remove key table),
  )

module _ {Value : Type 0} (json : Json Value) (hash_body : List ℕ → String) where
  -- Later requests, whatever their scope, key and body, leave the row until it expires.
  stored-Has :
      (key : Scope × String) (entry : IdempotencyDbEntry Value) (scope : Scope)
      (other hash : String) (status : ℕ) (value : Option Value) (ttl : ℕ) (now : Instant)
      (writes : Writes) (table : Table Value)
      → now < entry.expires_at
      → Has key entry table
      → Has key entry (stored json hash_body scope other hash status value ttl now writes table)
  unfolding insert_db_entry
  stored-Has key entry scope other hash status none ttl now writes table lt h = h
  stored-Has key entry scope other hash status (some v) ttl now neither table lt h = h
  stored-Has key entry scope other hash status (some v) ttl now first_only table lt h =
      deleted-Has key (scope, other) entry now table lt h
  stored-Has key entry scope other hash status (some v) ttl now both table lt h =
      inserted-Has key (scope, other) entry
        (record {
          request_hash = hash;
          response_status = status;
          response_body = v;
          expires_at = now + ttl;
        })
        (deleted_expired (scope, other) now (HashMap.get (scope, other) table) table)
        (deleted-Has key (scope, other) entry now table lt h)

  module _ {State : Type 0} (run : Request → State → State × Response) (ttl : ℕ) where
    abbrev pub World : Type 0
    World = Table Value × State

    -- What others do: a whole request, or the rest of one whose lookup found nothing earlier.
    pub data Event : Type 0 where
      requested : Request → Bool → Instant → Instant → Writes → Event
      finished : Request → String → Instant → Writes → Event

    abbrev pub written_at : Event → Instant
    written_at (requested request found asked_at now writes) = now
    written_at (finished request key now writes) = now

    abbrev pub step : Event → World → World
    step (requested request found asked_at now writes) world =
        (idempotency_db_middleware json hash_body run ttl request found asked_at now writes world).0
    step (finished request key now writes) world =
        (processed json hash_body run ttl request key now writes world).0

    abbrev pub run_events : List Event → World → World
    run_events [] world = world
    run_events (event ∷ events) world = run_events events (step event world)

    -- All these writes come before this time.
    abbrev pub Before : Instant → List Event → Type 0
    Before end [] = Unit
    Before end (event ∷ events) = (written_at event < end) × Before end events

    module _ (key : Scope × String) (entry : IdempotencyDbEntry Value) where
      processed-Has :
          (request : Request) (other : String) (now : Instant) (writes : Writes) (world : World)
          → now < entry.expires_at
          → Has key entry world.0
          → Has key entry (processed json hash_body run ttl request other now writes world).0.0
      unfolding remember
      processed-Has request other now writes world lt h =
          let response = (run request world.1).1 in
          stored-Has key entry (request_scope request) other (hash_body request.body)
            response.status (response_body_to_json json hash_body (buffered response.body)) ttl now
            writes world.0 lt h

      looked_up-Has :
          (request : Request) (other : String) (found : Option (IdempotencyDbEntry Value))
          (now : Instant) (writes : Writes) (world : World)
          → now < entry.expires_at
          → Has key entry world.0
          → Has key entry
              (looked_up json hash_body run ttl request other found now writes world).0.0
      looked_up-Has request other none now writes world lt h =
          processed-Has request other now writes world lt h
      looked_up-Has request other (some old) now writes world lt h = h

      keyed-Has :
          (request : Request) (header : Option String) (found : Bool) (asked_at now : Instant)
          (writes : Writes) (world : World)
          → now < entry.expires_at
          → Has key entry world.0
          → Has key entry
              (keyed json hash_body run ttl request header found asked_at now writes world).0.0
      keyed-Has request none found asked_at now writes world lt h = h
      keyed-Has request (some other) found asked_at now writes world lt h =
          elim (Bool-cases (ltb max_hash_body_bytes (length request.body))) [
            | inl e ↦ rw (e, keyed) h
            | inr e ↦
                let found_entry =
                  if found
                  then load_db_entry (request_scope request) other asked_at world.0
                  else none in
                rw (e, keyed) (looked_up-Has request other found_entry now writes world lt h)
          ]

      step-Has :
          (event : Event) (world : World)
          → written_at event < entry.expires_at
          → Has key entry world.0
          → Has key entry (step event world).0
      unfolding idempotency_db_middleware
      step-Has (finished request other now writes) world lt h =
          processed-Has request other now writes world lt h
      step-Has (requested request found asked_at now writes) world lt h =
          elim (Bool-cases (request.method == "POST")) [
            | inl e ↦
                rw (e, step)
                  (keyed-Has request (HashMap.get idempotency_key_header request.headers) found
                    asked_at now writes world lt h)
            | inr e ↦ rw (e, step) h
          ]

      run_events-Has :
          (events : List Event) (world : World)
          → Before entry.expires_at events
          → Has key entry world.0
          → Has key entry (run_events events world).0
      run_events-Has [] world b h = h
      run_events-Has (event ∷ events) world b h =
          run_events-Has events (step event world) b.1 (step-Has event world b.0 h)

    -- The row that a request leaves.
    abbrev pub entry_of : Request → Response → Value → Instant → IdempotencyDbEntry Value
    entry_of request response value now = record {
      request_hash = hash_body request.body;
      response_status = response.status;
      response_body = value;
      expires_at = now + ttl;
    }

    processed-stores :
        (request : Request) (key : String) (now : Instant) (world : World) (value : Value)
        → load_db_entry (request_scope request) key now world.0 ≡ none
        → response_body_to_json json hash_body (buffered (run request world.1).1.body) ≡ some value
        → Has
            (request_scope request, key)
            (entry_of request (run request world.1).1 value now)
            (processed json hash_body run ttl request key now both world).0.0
    unfolding remember insert_db_entry load_db_entry
    processed-stores request key now world value free json_ok =
        rw (json_ok, processed)
          (written-Has (request_scope request, key)
            (entry_of request (run request world.1).1 value now) now world.0 free)

    -- A request that finds a live row of its hash is answered from it.
    row_replays :
        (retry : Request) (key : String) (entry : IdempotencyDbEntry Value)
        (asked_at later : Instant) (writes : Writes) (world : World)
        → Has (request_scope retry, key) entry world.0
        → asked_at < entry.expires_at
        → entry.request_hash ≡ hash_body retry.body
        → retry.method ≡ "POST"
        → HashMap.get idempotency_key_header retry.headers ≡ some key
        → length retry.body ≤ max_hash_body_bytes
        → idempotency_db_middleware json hash_body run ttl retry true asked_at later writes world
          ≡ (world, respond (replay_response json hash_body entry key))
    unfolding idempotency_db_middleware load_db_entry
    row_replays retry key entry asked_at later writes world row live same post keyed_by short =
        let is_post : (retry.method == "POST") ≡ true =
          (string_eq.test_iff retry.method "POST").1 post in
        let fits : ltb max_hash_body_bytes (length retry.body) ≡ false = ground arith in
        let found : ltb asked_at entry.expires_at ≡ true = ground arith in
        let equal : (entry.request_hash == hash_body retry.body) ≡ true =
          (string_eq.test_iff entry.request_hash (hash_body retry.body)).1 same in
        rw is_post
          (rw (keyed_by, keyed) (rw fits (rw (row, load_db_entry) (rw found (rw equal refl)))))

    -- A POST request whose response is JSON and has been recorded, with no live row of its scope and key
    -- before, is answered from then on until the time to live has passed, whatever requests come between and
    -- are under way: a POST to the same path with the same key and body, of the allowed length, gets the
    -- recorded status and body, and is not run again. Headers other than the key play no part.
    pub recorded_replays :
        (request retry : Request) (key : String) (now asked_at later : Instant) (writes : Writes)
        (value : Value) (world : World) (events : List Event)
        → load_db_entry (request_scope request) key now world.0 ≡ none
        → response_body_to_json json hash_body (buffered (run request world.1).1.body) ≡ some value
        → Before (now + ttl) events
        → retry.method ≡ "POST"
        → request_scope retry ≡ request_scope request
        → retry.body ≡ request.body
        → HashMap.get idempotency_key_header retry.headers ≡ some key
        → length retry.body ≤ max_hash_body_bytes
        → asked_at < now + ttl
        → let world' =
            run_events events (processed json hash_body run ttl request key now both world).0 in
          idempotency_db_middleware json hash_body run ttl retry true asked_at later writes world'
          ≡ (
            world',
            respond (
                replay_response json hash_body
                  (entry_of request (run request world.1).1 value now)
                  key),
          )
    unfolding idempotency_db_middleware load_db_entry
    recorded_replays request retry key now asked_at later writes value world events free json_ok
          before post same_scope same_body keyed_by short in_time =
        let entry = entry_of request (run request world.1).1 value now in
        let world' =
          run_events events (processed json hash_body run ttl request key now both world).0 in
        let row =
          run_events-Has (request_scope request, key) entry events
            (processed json hash_body run ttl request key now both world).0 before
            (processed-stores request key now world value free json_ok) in
        row_replays retry key entry asked_at later writes world'
          (subst (λ scope. Has (scope, key) entry world'.0) (sym same_scope) row) in_time
          (ap hash_body (sym same_body)) post keyed_by short
