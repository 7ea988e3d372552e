-- ===== src/Relay/Idempotency.antt =====
-- crates/relay/src/idempotency.rs, `idempotency_db_middleware`: the answer to a POST request is kept
-- under its scope and its idempotency key, and given again to a request with the same body. The scope,
-- `{method} {path}` in the source, is the pair of the two. Headers hold texts; one that is no text counts
-- as missing. What the database answers to the lookup and to the writes is an argument of each call. The
-- inner service, the hash and the reading and writing of JSON are parameters.
pub mod Replay
pub mod Memory
mod Tests
use scriptum.Prelude.{
  ℕ, ◌+◌, ◌*◌, Bool, true, false, not, String, Option, none, some, List, [], ◌∷◌, length, ltb, leb,
  ◌==◌, Eq, nat_eq, string_eq, pair_eq, if◌then◌else◌,
}
use scriptum.Prelude.HashMap
use scriptum.Prelude.HashMap.{HashMap}
use scriptum.Prelude.Numbers.{Instant}

abbrev pub idempotency_key_header : String
idempotency_key_header = "idempotency-key"

abbrev pub max_hash_body_bytes : ℕ
max_hash_body_bytes = 1024 * 1024

abbrev pub Headers : Type 0
Headers = HashMap String String

pub record Request : Type 0 where
  pub method : String
  pub path : String
  pub headers : Headers
  pub body : List ℕ

pub record Response : Type 0 where
  pub status : ℕ
  pub headers : Headers
  pub body : List ℕ

pub data ErrorCode : Type 0 where
  validation_failed : ErrorCode
  doc_path_conflict : ErrorCode

-- A response, or an error that is turned into one.
pub data Answer : Type 0 where
  respond : Response → Answer
  reject : ErrorCode → Answer

pub record IdempotencyDbEntry (Value : Type 0) : Type 0 where
  pub request_hash : String
  pub response_status : ℕ
  pub response_body : Value
  pub expires_at : Instant

abbrev pub Scope : Type 0
Scope = String × String

abbrev pub request_scope : Request → Scope
request_scope request = (request.method, request.path)

-- The table `idempotency_keys`, by its primary key.
abbrev pub Table : Type 0 → Type 0
Table Value = HashMap (Scope × String) (IdempotencyDbEntry Value)

-- What becomes of the writes of `insert_db_entry`, which read one time: both happen, or the first, or
-- none.
pub data Writes : Type 0 where
  both first_only neither : Writes

-- `serde_json`.
pub record Json (Value : Type 0) : Type 0 where
  pub null : Value
  pub is_null : Value → Bool
  pub from_slice : List ℕ → Option Value
  pub to_vec : Value → List ℕ

-- `to_bytes` on the body of a response, and `unwrap_or_default`.
abbrev pub buffered : List ℕ → List ℕ
buffered body = if ltb max_hash_body_bytes (length body) then [] else body

abbrev pub is_live : {Value : Type 0} → Instant → IdempotencyDbEntry Value → Bool
is_live now entry = ltb now entry.expires_at

abbrev pub live_entry :
    {Value : Type 0}
    → Instant
    → Option (IdempotencyDbEntry Value)
    → Option (IdempotencyDbEntry Value)
live_entry now none = none
live_entry now (some entry) = if is_live now entry then some entry else none

unfoldable pub load_db_entry :
    {Value : Type 0} → Scope → String → Instant → Table Value → Option (IdempotencyDbEntry Value)
load_db_entry scope key now table = live_entry now (HashMap.get (scope, key) table)

module _ {K Value : Type 0} ⦃e : Eq K⦄ where
  -- The delete of a row that has expired.
  abbrev pub deleted_expired :
      K
      → Instant
      → Option (IdempotencyDbEntry Value)
      → HashMap K (IdempotencyDbEntry Value)
      → HashMap K (IdempotencyDbEntry Value)
  deleted_expired key now none table = table
  deleted_expired key now (some entry) table =
      if is_live now entry then table else HashMap.remove key table

  -- The insert, which does nothing on a conflict.
  abbrev pub inserted :
      K
      → IdempotencyDbEntry Value
      → Option (IdempotencyDbEntry Value)
      → HashMap K (IdempotencyDbEntry Value)
      → HashMap K (IdempotencyDbEntry Value)
  inserted key entry (some old) table = table
  inserted key entry none table = HashMap.insert key entry table

unfoldable pub insert_db_entry :
    {Value : Type 0}
    → Scope
    → String
    → IdempotencyDbEntry Value
    → Instant
    → Writes
    → Table Value
    → Table Value
insert_db_entry scope key entry now neither table = table
insert_db_entry scope key entry now first_only table =
    deleted_expired (scope, key) now (HashMap.get (scope, key) table) table
insert_db_entry scope key entry now both table =
    let table' = deleted_expired (scope, key) now (HashMap.get (scope, key) table) table in
    inserted (scope, key) entry (HashMap.get (scope, key) table') table'

module _ {Value : Type 0} (json : Json Value) (hash_body : List ℕ → String) where
  abbrev pub response_body_to_json : List ℕ → Option Value
  response_body_to_json [] = some json.null
  response_body_to_json (b ∷ bs) = json.from_slice (b ∷ bs)

  abbrev pub replay_body : Value → List ℕ
  replay_body value = if json.is_null value then [] else json.to_vec value

  abbrev pub replay_response : IdempotencyDbEntry Value → String → Response
  replay_response entry key = record {
    status = entry.response_status;
    headers = (idempotency_key_header, key) ∷ ("idempotency-replay", "true") ∷ [];
    body = replay_body entry.response_body;
  }

  abbrev pub replayed : IdempotencyDbEntry Value → String → Request → Answer
  replayed entry key request =
      if entry.request_hash == hash_body request.body
      then respond (replay_response entry key)
      else reject doc_path_conflict

  abbrev pub stored :
      Scope → String → String → ℕ → Option Value → ℕ → Instant → Writes → Table Value → Table Value
  stored scope key hash status none ttl now writes table = table
  stored scope key hash status (some value) ttl now writes table =
      let entry : IdempotencyDbEntry Value = record {
        request_hash = hash;
        response_status = status;
        response_body = value;
        expires_at = now + ttl;
      } in
      insert_db_entry scope key entry now writes table

  -- After the inner service has responded.
  unfoldable pub remember :
      ℕ → Request → String → Response → Instant → Writes → Table Value → Table Value × Answer
  unfolding insert_db_entry
  remember ttl request key response now writes table =
      let bytes = buffered response.body in
      (
        stored (request_scope request) key (hash_body request.body) response.status
            (response_body_to_json bytes) ttl now writes table,
        respond (record response {
          body = bytes;
          headers = HashMap.insert idempotency_key_header key response.headers;
        }),
      )

  module _ {State : Type 0} (run : Request → State → State × Response) where
    abbrev pub passed : Request → Table Value × State → (Table Value × State) × Answer
    passed request (table, state) =
        let (state', response) = run request state in ((table, state'), respond response)

    abbrev pub processed :
        ℕ
        → Request
        → String
        → Instant
        → Writes
        → Table Value × State
        → (Table Value × State) × Answer
    processed ttl request key now writes (table, state) =
        let (state', response) = run request state in
        let (table', answer) = remember ttl request key response now writes table in
        ((table', state'), answer)

    abbrev pub looked_up :
        ℕ
        → Request
        → String
        → Option (IdempotencyDbEntry Value)
        → Instant
        → Writes
        → Table Value × State
        → (Table Value × State) × Answer
    looked_up ttl request key none now writes world = processed ttl request key now writes world
    looked_up ttl request key (some entry) now writes world = (world, replayed entry key request)

    abbrev pub keyed :
        ℕ
        → Request
        → Option String
        → Bool
        → Instant
        → Instant
        → Writes
        → Table Value × State
        → (Table Value × State) × Answer
    keyed ttl request none found asked_at now writes world = passed request world
    keyed ttl request (some key) found asked_at now writes world =
        if ltb max_hash_body_bytes (length request.body)
        then (world, reject validation_failed)
        else looked_up ttl request key
            (if found then load_db_entry (request_scope request) key asked_at world.0 else none) now
            writes world

    -- `found` is whether the lookup succeeds; if it fails, the request is processed.
    unfoldable pub idempotency_db_middleware :
        ℕ
        → Request
        → Bool
        → Instant
        → Instant
        → Writes
        → Table Value × State
        → (Table Value × State) × Answer
    unfolding load_db_entry remember
    idempotency_db_middleware ttl request found asked_at now writes world =
        if request.method == "POST"
        then keyed ttl request (HashMap.get idempotency_key_header request.headers) found asked_at
            now writes world
        else passed request world
