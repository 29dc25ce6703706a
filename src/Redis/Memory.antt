-- ===== src/Redis/Memory.antt =====
-- A server in memory, which keeps the promises: a function from keys to values with their expiry.
use auto_invest_manager.Base.{
  ℕ, ◌+◌, ◌≡◌, Bool, true, false, Option, none, some, String, str_eq, ltb, arith, is_some,
  if◌then◌else◌,
}
use auto_invest_manager.Redis.{Redis, IsRedis}

-- The value under a key, and the time at which it is gone.
abbrev Cells : Type 0
Cells = String → Option (String × ℕ)

abbrev live : ℕ → Option (String × ℕ) → Option String
live t none = none
live t (some (v, e)) = if ltb t e then some v else none

abbrev put : Cells → String → Option (String × ℕ) → Cells
put s k c j = if str_eq j k then c else s j

abbrev extend : ℕ → Option (String × ℕ) → Option (String × ℕ)
extend e none = none
extend e (some (v, d)) = some (v, e)

abbrev set_cell : Option String → Cells → ℕ → String → String → ℕ → Cells × Bool
set_cell none s t k w ttl = (put s k (some (w, t + ttl)), true)
set_cell (some v) s t k w ttl = (s, false)

abbrev pub memory : Redis
memory = record {
  State = Cells;
  get = λ s t k. live t (s k);
  set_nx = λ s t k w ttl. set_cell (live t (s k)) s t k w ttl;
  expire = λ s t k ttl. put s k (if is_some (live t (s k)) then extend (t + ttl) (s k) else none);
  del = λ s t k. put s k none;
}

module _ (s : Cells) (t u : ℕ) (k w j : String) (ttl : ℕ) where
  get-set_lem :
      live t (s k) ≡ none
      → live u ((set_cell (live t (s k)) s t k w ttl).0 j)
        ≡ (if str_eq j k then (if ltb u (t + ttl) then some w else none) else live u (s j))
  get-set_lem e = ground arith

  get-expire_lem :
      live t (s k) ≡ some w
      → live u (put s k (if is_some (live t (s k)) then extend (t + ttl) (s k) else none) j)
        ≡ (if str_eq j k then (if ltb u (t + ttl) then some w else none) else live u (s j))
  get-expire_lem e = ground arith

pub memory-IsRedis : IsRedis memory
memory-IsRedis = record {
  set_taken = λ s t k v w ttl e. ground arith;
  set_free = λ s t k w ttl e. ground arith;
  get-set = λ s t u k w j ttl e h. get-set_lem s t u k w j ttl e;
  get-expire = λ s t u k v j ttl e h. get-expire_lem s t u k v j ttl e;
  get-del = λ s t u k j h. ground arith;
}
