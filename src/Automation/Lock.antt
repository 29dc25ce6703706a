-- ===== src/Automation/Lock.antt =====
-- app/automation/lock.py: the lock of a cycle, over any server that keeps the promises of `IsRedis`.
pub mod Ownership
use auto_invest_manager.Base.{
  ℕ, Bool, true, false, Option, none, some, String, str_eq, if◌then◌else◌,
}
use Prim.Native.String.{◌++◌}
use auto_invest_manager.Redis.{Redis}

pub record LockLease : Type 0 where
  pub key : String
  pub owner_token : String

abbrev pub lock_key : String → String
lock_key account_id = "automation-cycle:" ++ account_id

abbrev pub holds : Option String → String → Bool
holds none owner = false
holds (some v) owner = str_eq v owner

module _ (R : Redis) where
  open R use {State, get, set_nx, del}

  -- `RELEASE_SCRIPT`: the key is deleted only if it holds the token of the caller.
  unfoldable pub release_script : State → ℕ → String → String → State × Bool
  release_script s now key token =
      if holds (get s now key) token then (del s now key, true) else (s, false)

  abbrev leased : LockLease → State × Bool → State × Option LockLease
  leased lease (s, true) = (s, some lease)
  leased lease (s, false) = (s, none)

  -- `RedisCycleLock.acquire`; the fresh token is `uuid4().hex`.
  unfoldable pub acquire : ℕ → String → String → State → ℕ → State × Option LockLease
  acquire ttl_seconds owner_token account_id s now =
      leased (record { key = lock_key account_id; owner_token = owner_token })
        (set_nx s now (lock_key account_id) owner_token ttl_seconds)

  -- `RedisCycleLock.release`
  unfoldable pub release : LockLease → State → ℕ → State × Bool
  unfolding release_script
  release lease s now = release_script s now lease.key lease.owner_token
