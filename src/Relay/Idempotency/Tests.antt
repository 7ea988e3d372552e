-- ===== src/Relay/Idempotency/Tests.antt =====
-- A relay that counts the requests it runs, and a retry between requests of others.
use scriptum.Prelude.{
  ℕ, ◌+◌, ◌≡◌, refl, String, some, List, [], ◌∷◌, true, false, arith, ◌==◌, nat_eq, string_eq,
  pair_eq, if◌then◌else◌,
}
use scriptum.Prelude.HashMap
use scriptum.Relay.Idempotency.{
  Request, Response, Json, both, neither, respond, reject, doc_path_conflict, replay_response,
  processed, idempotency_db_middleware, load_db_entry, remember, insert_db_entry,
}
use scriptum.Relay.Idempotency.Replay.{
  World, Event, requested, finished, run_events, entry_of, recorded_replays,
}

-- A JSON text stands for itself.
abbrev plain : Json (List ℕ)
plain = record { null = []; is_null = λ v. false; from_slice = λ b. some b; to_vec = λ v. v }

abbrev first_byte : List ℕ → String
first_byte [] = ""
first_byte (b ∷ bs) = if b == 1 then "one" else "many"

-- Each request is answered with the number of those before it.
abbrev count : Request → ℕ → ℕ × Response
count request n = (n + 1, record { status = 201; headers = []; body = n ∷ [] })

abbrev post : String → List ℕ → Request
post credentials body = record {
  method = "POST";
  path = "/v1/workspaces";
  headers = ("authorization", credentials) ∷ ("idempotency-key", "k") ∷ [];
  body = body;
}

abbrev events : List (Event plain first_byte count 60)
events =
    requested (post "b" (2 ∷ [])) true 12 13 both ∷ finished (post "c" (1 ∷ [])) "k" 14 both ∷ []

abbrev before : World plain first_byte count 60
before = ([], 7)

abbrev after : World plain first_byte count 60
after =
    run_events plain first_byte count 60 events
      (processed plain first_byte count 60 (post "a" (1 ∷ [])) "k" 11 both before).0

recorded_replays_example :
    idempotency_db_middleware plain first_byte count 60 (post "d" (1 ∷ [])) true 70 71 neither after
    ≡ (
      after,
      respond (
          replay_response plain first_byte
            (entry_of plain first_byte count 60
              (post "a" (1 ∷ []))
              (count (post "a" (1 ∷ [])) 7).1
              (7 ∷ [])
              11)
            "k"),
    )
unfolding HashMap.get load_db_entry
recorded_replays_example =
    recorded_replays plain first_byte count 60 (post "a" (1 ∷ [])) (post "d" (1 ∷ [])) "k" 11 70 71
      neither (7 ∷ []) before events refl refl (omega arith, (omega arith, tt)) refl refl refl refl
      (omega arith) (omega arith)

-- The same key with another body.
conflict :
    (idempotency_db_middleware plain first_byte count 60
      (post "b" (2 ∷ []))
      true
      12
      13
      both
      (processed plain first_byte count 60 (post "a" (1 ∷ [])) "k" 11 both before).0).1
    ≡ reject doc_path_conflict
unfolding idempotency_db_middleware remember insert_db_entry load_db_entry HashMap.get
    HashMap.insert
conflict = refl
