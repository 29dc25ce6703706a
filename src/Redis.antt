-- ===== src/Redis.antt =====
-- The commands of the Redis server that the code uses, as an interface: the server is not part of
-- the repository. A command takes the time at which the server runs it, in seconds.
pub mod Memory
pub mod Sets
use auto_invest_manager.Base.{
  ℕ, ◌+◌, ◌≤◌, ◌≡◌, Bool, true, false, Option, none, some, String, str_eq, ltb, if◌then◌else◌,
}

pub record Redis : Type 1 where
  pub State : Type 0
  -- GET key
  pub get : State → ℕ → String → Option String
  -- SET key value NX EX ttl: the state after, and whether the key was set
  pub set_nx : State → ℕ → String → String → ℕ → State × Bool
  -- EXPIRE key ttl
  pub expire : State → ℕ → String → ℕ → State
  -- DEL key
  pub del : State → ℕ → String → State

-- What the documentation of these commands promises: a key that is set lives until it is deleted or
-- its time is over, and no other key is touched.
pub record IsRedis (R : Redis) : Type 0 where
  pub set_taken :
      (s : R.State) (t : ℕ) (k v w : String) (ttl : ℕ)
      → R.get s t k ≡ some v
      → R.set_nx s t k w ttl ≡ (s, false)
  pub set_free :
      (s : R.State) (t : ℕ) (k w : String) (ttl : ℕ)
      → R.get s t k ≡ none
      → (R.set_nx s t k w ttl).1 ≡ true
  pub get-set :
      (s : R.State) (t u : ℕ) (k w j : String) (ttl : ℕ)
      → R.get s t k ≡ none
      → t ≤ u
      → R.get (R.set_nx s t k w ttl).0 u j
        ≡ (if str_eq j k then (if ltb u (t + ttl) then some w else none) else R.get s u j)
  pub get-expire :
      (s : R.State) (t u : ℕ) (k v j : String) (ttl : ℕ)
      → R.get s t k ≡ some v
      → t ≤ u
      → R.get (R.expire s t k ttl) u j
        ≡ (if str_eq j k then (if ltb u (t + ttl) then some v else none) else R.get s u j)
  pub get-del :
      (s : R.State) (t u : ℕ) (k j : String)
      → t ≤ u
      → R.get (R.del s t k) u j ≡ (if str_eq j k then none else R.get s u j)
