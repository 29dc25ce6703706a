-- ===== src/Redis/Sets.antt =====
-- The commands SADD and SMEMBERS of a Redis server on one set, what their documentation promises,
-- and a server in memory that keeps the promise.
use auto_invest_manager.Base.{
  ◌≡◌, refl, true, ◌||◌, List, [], ◌∷◌, any, String, str_eq, eq_iff, if◌then◌else◌, arith,
  Bool-cases, inl, inr,
}

pub record RedisSet : Type 1 where
  pub State : Type 0
  pub empty : State
  pub sadd : String → State → State
  pub smembers : State → List String

pub record IsRedisSet (r : RedisSet) : Type 0 where
  pub smembers-empty : r.smembers r.empty ≡ []
  -- the order of the members is not promised
  pub smembers-sadd :
      (v w : String) (s : r.State)
      → any (str_eq w) (r.smembers (r.sadd v s)) ≡ (str_eq w v || any (str_eq w) (r.smembers s))

abbrev pub memory_set : RedisSet
memory_set = record {
  State = List String;
  empty = [];
  sadd = λ v s. if any (str_eq v) s then s else v ∷ s;
  smembers = λ s. s;
}

any-known :
    (v w : String) (s : List String)
    → any (str_eq v) s ≡ true
    → any (str_eq w) s ≡ (str_eq w v || any (str_eq w) s)
any-known v w s h = elim (Bool-cases (str_eq w v)) [
  | inl p ↦ rw ((eq_iff w v).0 p) (ground arith)
  | inr p ↦ ground arith
]

pub memory_set-IsRedisSet : IsRedisSet memory_set
memory_set-IsRedisSet = record {
  smembers-empty = refl;
  smembers-sadd = λ v w s. elim (Bool-cases (any (str_eq v) s)) [
    | inl p ↦ ground (arith, any-known v w s p)
    | inr p ↦ ground arith
  ];
}
