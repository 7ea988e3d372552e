-- ===== src/Daemon/GitLeader.antt =====
-- crates/daemon/src/git/leader.rs: the loop in which a daemon acquires and renews the leader lease of
-- a workspace, cut at its awaits. The client that talks to the relay is a trait, and what it answers
-- is an argument.
pub mod World
mod Tests
use scriptum.Prelude.{ℕ, Bool, true, false, String, Option, none, some, is_some}
use scriptum.Prelude.Numbers.{Uuid}

pub data AcquireResponse : Type 0 where
  granted : Uuid → AcquireResponse
  denied : Uuid → AcquireResponse

pub data RenewResponse : Type 0 where
  renewed : RenewResponse
  lost : RenewResponse

pub data ReleaseResponse : Type 0 where
  released : ReleaseResponse
  not_found : ReleaseResponse

pub data LeaseClientError : Type 0 where
  connection_failed : LeaseClientError
  relay_error : String → LeaseClientError

-- What a method of the client returns.
pub data Answer {ℓ} (A : Type ℓ) : Type ℓ where
  ok : A → Answer A
  err : LeaseClientError → Answer A

pub data LeaderState : Type 0 where
  leader : Uuid → LeaderState
  follower : LeaderState
  unknown : LeaderState

abbrev pub is_leader : LeaderState → Bool
is_leader (leader l) = true
is_leader other = false

-- Times are in milliseconds.
pub record LeaderConfig : Type 0 where
  pub workspace_id : Uuid
  pub client_id : Uuid
  pub heartbeat_interval : ℕ
  pub retry_interval : ℕ

abbrev pub new : Uuid → Uuid → LeaderConfig
new workspace client = record {
  workspace_id = workspace;
  client_id = client;
  heartbeat_interval = 24_000;
  retry_interval = 5_000;
}

-- The shared part: the lease, and the value of the watch channel.
pub record LeaderInner : Type 0 where
  pub current_lease_id : Option Uuid
  pub state : LeaderState

-- `start_leader_election`.
abbrev pub start : LeaderInner
start = record { current_lease_id = none; state = unknown }

-- The loop after the answer to a renewal, with the interval to sleep.
unfoldable pub after_renew : LeaderConfig → Answer RenewResponse → LeaderInner → LeaderInner × ℕ
after_renew config (ok renewed) inner = (inner, config.heartbeat_interval)
after_renew config (ok lost) inner = (record { current_lease_id = none; state = follower }, 0)
after_renew config (err e) inner = (inner, config.heartbeat_interval)

-- The loop after the answer to an acquisition.
unfoldable pub after_acquire : LeaderConfig → Answer AcquireResponse → LeaderInner → LeaderInner × ℕ
after_acquire config (ok (granted lease)) inner =
    (record { current_lease_id = some lease; state = leader lease }, config.heartbeat_interval)
after_acquire config (ok (denied holder)) inner =
    (record inner { state = follower }, config.retry_interval)
after_acquire config (err e) inner = (record inner { state = unknown }, config.retry_interval)

-- `shutdown` up to its await: the lease is taken, and if there was one it is to be released.
unfoldable pub shutdown : LeaderInner → LeaderInner × Bool
shutdown inner = (record inner { current_lease_id = none }, is_some inner.current_lease_id)

-- The end of `shutdown`, after the answer to the release, whatever it is.
abbrev pub after_release : LeaderInner → LeaderInner
after_release inner = record inner { state = follower }
