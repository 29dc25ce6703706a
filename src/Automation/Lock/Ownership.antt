-- ===== src/Automation/Lock/Ownership.antt =====
-- A lock has one owner at a time, and only its owner gives it back.
use auto_invest_manager.Base.{
  ℕ, ◌+◌, ◌≤◌, ◌<◌, ◌≡◌, ◌≢◌, sym, ap, ◌⊎◌, true, false, none, some, inl, inr, String, str_eq,
  eq_iff, arith, ltb, if◌then◌else◌,
}
use auto_invest_manager.Redis.{Redis, IsRedis}
use auto_invest_manager.Automation.Lock.{LockLease, lock_key, acquire, release}

early_or_late : (u d : ℕ) → (u < d) ⊎ (d ≤ u)
early_or_late u d = omega arith

module _ (R : Redis) (law : IsRedis R) (ttl : ℕ) where
  open R use {State, get, set_nx}

  -- A lock that is taken is not handed out, and the server is left as it was.
  pub acquire_taken :
      (s : State) (now : ℕ) (token account : String) {holder : String}
      → get s now (lock_key account) ≡ some holder
      → acquire R ttl token account s now ≡ (s, none)
  unfolding acquire
  acquire_taken s now token account {holder} h =
      rw (law.set_taken s now (lock_key account) holder token ttl h)

  -- A free lock is handed out: until its time is over the key holds the token of the caller, and
  -- no other key has changed.
  pub acquire_free :
      (s : State) (now later : ℕ) (token account other : String)
      → get s now (lock_key account) ≡ none
      → now ≤ later
      → let (s', lease) = acquire R ttl token account s now in
        (lease ≡ some (record { key = lock_key account; owner_token = token }))
        × (get s' later other ≡ (
            if str_eq other (lock_key account)
            then (if ltb later (now + ttl) then some token else none)
            else get s later other))
  unfolding acquire
  acquire_free s now later token account other h le = ground (
    arith,
    law.set_free s now (lock_key account) token ttl h,
    law.get-set s now later (lock_key account) token other ttl h le,
  )

  -- A release by a token that the key does not hold changes nothing.
  pub release_other :
      (lease : LockLease) (s : State) (now : ℕ) {holder : String}
      → get s now lease.key ≡ some holder
      → holder ≢ lease.owner_token
      → release R lease s now ≡ (s, false)
  unfolding release
  release_other lease s now {holder} h ne = ground (arith, eq_iff holder lease.owner_token)

  -- A release by the owner frees the key and touches no other.
  pub release_own :
      (lease : LockLease) (s : State) (now later : ℕ) (other : String)
      → get s now lease.key ≡ some lease.owner_token
      → now ≤ later
      → let (s', released) = release R lease s now in
        (released ≡ true)
        × (get s' later other ≡ (if str_eq other lease.key then none else get s later other))
  unfolding release
  release_own lease s now later other h le = ground (
    arith,
    eq_iff lease.owner_token lease.owner_token,
    law.get-del s now later lease.key other le,
  )

  held_until :
      (s : State) (now later : ℕ) (token account : String)
      → get s now (lock_key account) ≡ none
      → now ≤ later
      → get (acquire R ttl token account s now).0 later (lock_key account)
        ≡ (if ltb later (now + ttl) then some token else none)
  held_until s now later token account h le = ground (
    arith,
    (acquire_free s now later token account (lock_key account) h le).1,
    eq_iff (lock_key account) (lock_key account),
  )

  -- While a lock is live a second caller gets none; once its time is over a second caller gets it,
  -- and then the release of the first caller changes nothing.
  pub acquire_exclusive :
      (s : State) (t u w : ℕ) (a b account : String)
      → get s t (lock_key account) ≡ none
      → a ≢ b
      → t ≤ u
      → u ≤ w
      → w < u + ttl
      → let mine : LockLease = record { key = lock_key account; owner_token = a } in
        let (s1, _) = acquire R ttl a account s t in
        let (s2, second) = acquire R ttl b account s1 u in
        ((u < t + ttl) × (second ≡ none) × (s2 ≡ s1))
        ⊎ ((t + ttl ≤ u)
            × (second ≡ some (record { key = lock_key account; owner_token = b }))
            × (release R mine s2 w ≡ (s2, false)))
  acquire_exclusive s t u w a b account h ne tu uw live =
      let s1 = (acquire R ttl a account s t).0 in
      elim (early_or_late u (t + ttl)) [
        | inl early ↦
            let taken =
              acquire_taken s1 u b account {holder = a}
                (ground (arith, held_until s t u a account h tu)) in
            inl (early, ap (λ p. p.1) taken, ap (λ p. p.0) taken)
        | inr late ↦
            let free : get s1 u (lock_key account) ≡ none =
              ground (arith, held_until s t u a account h tu) in
            inr (
              late,
              (acquire_free s1 u w b account (lock_key account) free uw).0,
              release_other (record { key = lock_key account; owner_token = a })
                  (acquire R ttl b account s1 u).0 w {holder = b}
                  (ground (arith, held_until s1 u w b account free uw)) (λ e. ne (sym e)),
            )
      ]
