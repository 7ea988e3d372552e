-- ===== src/Relay/Idempotency/Memory.antt =====
-- crates/relay/src/idempotency.rs, `IdempotencyStore` and `idempotency_middleware`: the same with a store
-- in memory, whose keys have no scope. `elapsed` is a subtraction that stops at 0.
use scriptum.Prelude.{
  ℕ, ◌-◌, ◌*◌, ◌≤◌, ◌≡◌, refl, Bool, String, Option, none, some, List, [], ◌∷◌, length, ltb, ◌==◌,
  nat_eq, string_eq, if◌then◌else◌, arith, Option-cases, inl, inr,
}
use scriptum.Prelude.HashMap
use scriptum.Prelude.HashMap.{HashMap, Unique, get-retain}
use scriptum.Prelude.Numbers.{Instant}
use scriptum.Relay.Idempotency.{
  Request, Response, Answer, respond, reject, validation_failed, doc_path_conflict, buffered,
  idempotency_key_header, max_hash_body_bytes,
}

pub record IdempotencyEntry : Type 0 where
  pub body_hash : String
  pub status : ℕ
  pub body : List ℕ
  pub created_at : Instant

pub record IdempotencyStore : Type 0 where
  pub entries : HashMap String IdempotencyEntry
  pub ttl : ℕ

-- In seconds.
abbrev pub default_ttl : ℕ
default_ttl = 24 * 60 * 60

abbrev pub new : IdempotencyStore
new = record { entries = []; ttl = default_ttl }

abbrev pub with_ttl : IdempotencyStore → ℕ → IdempotencyStore
with_ttl store ttl = record store { ttl = ttl }

abbrev pub is_valid : ℕ → Instant → IdempotencyEntry → Bool
is_valid ttl now entry = ltb (now - entry.created_at) ttl

abbrev pub valid_entry : ℕ → Instant → Option IdempotencyEntry → Option IdempotencyEntry
valid_entry ttl now none = none
valid_entry ttl now (some entry) = if is_valid ttl now entry then some entry else none

unfoldable pub get : String → Instant → IdempotencyStore → Option IdempotencyEntry
get key now store = valid_entry store.ttl now (HashMap.get key store.entries)

abbrev pub insert : String → IdempotencyEntry → IdempotencyStore → IdempotencyStore
insert key entry store = record store { entries = HashMap.insert key entry store.entries }

unfoldable pub evict_expired : Instant → IdempotencyStore → IdempotencyStore × ℕ
evict_expired now store =
    let kept = HashMap.retain (λ key entry. is_valid store.ttl now entry) store.entries in
    (record store { entries = kept }, length store.entries - length kept)

abbrev pub len : IdempotencyStore → ℕ
len store = length store.entries

abbrev pub is_empty : IdempotencyStore → Bool
is_empty store = len store == 0

module _ (hash_body : List ℕ → String) {State : Type 0}
    (run : Request → State → State × Response) where
  abbrev pub World : Type 0
  World = IdempotencyStore × State

  abbrev pub replayed : String → IdempotencyEntry → Request → Answer
  replayed key entry request =
      if entry.body_hash == hash_body request.body
      then respond (record {
        status = entry.status;
        headers = (idempotency_key_header, key) ∷ ("idempotency-replay", "true") ∷ [];
        body = entry.body;
      })
      else reject doc_path_conflict

  abbrev pub processed : Request → String → Instant → World → World × Answer
  processed request key now (store, state) =
      let (state', response) = run request state in
      let bytes = buffered response.body in
      let entry : IdempotencyEntry = record {
        body_hash = hash_body request.body;
        status = response.status;
        body = bytes;
        created_at = now;
      } in
      (
        (insert key entry store, state'),
        respond (record response {
          body = bytes;
          headers = HashMap.insert idempotency_key_header key response.headers;
        }),
      )

  abbrev pub looked_up :
      Request → String → Option IdempotencyEntry → Instant → World → World × Answer
  looked_up request key none now world = processed request key now world
  looked_up request key (some entry) now world = (world, replayed key entry request)

  abbrev pub passed : Request → World → World × Answer
  passed request (store, state) =
      let (state', response) = run request state in ((store, state'), respond response)

  abbrev pub keyed : Request → Option String → Instant → Instant → World → World × Answer
  keyed request none asked_at now world = passed request world
  keyed request (some key) asked_at now world =
      if ltb max_hash_body_bytes (length request.body)
      then (world, reject validation_failed)
      else looked_up request key (get key asked_at world.0) now world

  -- With a store in the extensions of the request.
  pub idempotency_middleware : Request → Instant → Instant → World → World × Answer
  unfolding get
  idempotency_middleware request asked_at now world =
      if request.method == "POST"
      then keyed request (HashMap.get idempotency_key_header request.headers) asked_at now world
      else passed request world

-- Eviction changes no lookup, then or later.
get-evict_expired :
    (key : String) (now later : Instant) (store : IdempotencyStore)
    → now ≤ later
    → Unique store.entries
    → get key later (evict_expired now store).0 ≡ get key later store
unfolding get evict_expired
get-evict_expired key now later store le unique =
    elim (Option-cases (HashMap.get key store.entries)) [
      | inl gone ↦
          rw (get-retain (λ key entry. is_valid store.ttl now entry) key store.entries unique)
            (rw gone refl)
      | inr (entry, found) ↦
          rw (get-retain (λ key entry. is_valid store.ttl now entry) key store.entries unique)
            (rw found (ground arith))
    ]
