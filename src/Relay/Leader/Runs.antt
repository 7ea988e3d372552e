-- ===== src/Relay/Leader/Runs.antt =====
-- The leader of a workspace under sequences of calls on the manager.
use scriptum.Prelude.{ℕ, List, [], ◌∷◌, nat_eq}
use scriptum.Prelude.Numbers.{Uuid, Instant}
use scriptum.Relay.Leader.{
  LeaseTable, AcquireResult, RenewResult, ReleaseResult, acquire, renew, release, evict_expired,
}

pub data Call : Type 0 where
  acquires : Uuid → Uuid → Uuid → Call
  renews : Uuid → Uuid → Uuid → Call
  releases : Uuid → Uuid → Call
  evicts : Call

pub data Reply : Type 0 where
  acquired : AcquireResult → Reply
  renewal : RenewResult → Reply
  let_go : ReleaseResult → Reply
  evicted : ℕ → Reply

abbrev pub with_reply {ℓ} : {A : Type ℓ} → (A → Reply) → LeaseTable × A → LeaseTable × Reply
with_reply f (table, a) = (table, f a)

unfoldable pub step : ℕ → Instant → Call → LeaseTable → LeaseTable × Reply
step ttl now (acquires w c p) table = with_reply acquired (acquire ttl w c p now table)
step ttl now (renews w c l) table = with_reply renewal (renew ttl w c l now table)
step ttl now (releases w c) table = with_reply let_go (release w c now table)
step ttl now evicts table = with_reply evicted (evict_expired now table)

-- The table after the calls, and each call with its reply.
unfoldable pub run : ℕ → List (Instant × Call) → LeaseTable → LeaseTable × List (Call × Reply)
unfolding step
run ttl [] table = (table, [])
run ttl ((now, call) ∷ calls) table =
    let (table', reply) = step ttl now call table in
    let (table'', replies) = run ttl calls table' in (table'', (call, reply) ∷ replies)
