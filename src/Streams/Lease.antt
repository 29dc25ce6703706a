-- ===== src/Streams/Lease.antt =====
-- app/streams/lease.py: the lease of a stream listener, over any server that keeps the promises of
-- `IsRedis`.
pub mod Renewal
use auto_invest_manager.Base.{ℕ, Bool, true, false, Option, none, some, String, if◌then◌else◌}
use auto_invest_manager.Redis.{Redis}
use auto_invest_manager.Automation.Lock.{holds}

pub record StreamLease : Type 0 where
  pub key : String
  pub owner_token : String

module _ (R : Redis) where
  open R use {State, get, set_nx, expire, del}

  -- `RENEW_SCRIPT`
  unfoldable pub renew_script : State → ℕ → String → String → ℕ → State × Bool
  renew_script s now key token ttl =
      if holds (get s now key) token then (expire s now key ttl, true) else (s, false)

  -- `RELEASE_SCRIPT`
  unfoldable pub release_lease_script : State → ℕ → String → String → State × Bool
  release_lease_script s now key token =
      if holds (get s now key) token then (del s now key, true) else (s, false)

  abbrev granted : StreamLease → State × Bool → State × Option StreamLease
  granted lease (s, true) = (s, some lease)
  granted lease (s, false) = (s, none)

  -- `RedisStreamLease.acquire`; the fresh owner is `uuid4().hex`.
  unfoldable pub acquire_lease : ℕ → String → String → State → ℕ → State × Option StreamLease
  acquire_lease ttl_seconds owner key s now =
      granted (record { key = key; owner_token = owner }) (set_nx s now key owner ttl_seconds)

  -- `RedisStreamLease.renew`
  unfoldable pub renew_lease : ℕ → StreamLease → State → ℕ → State × Bool
  unfolding renew_script
  renew_lease ttl_seconds lease s now = renew_script s now lease.key lease.owner_token ttl_seconds

  -- `RedisStreamLease.release`
  unfoldable pub release_lease : StreamLease → State → ℕ → State × Bool
  unfolding release_lease_script
  release_lease lease s now = release_lease_script s now lease.key lease.owner_token
