-- ===== src/Streams/Lease/Renewal.antt =====
-- A lease that is renewed in time stays with its owner; one that is not can be taken over, and its
-- former owner can neither renew nor release it.
use auto_invest_manager.Base.{
  ℕ, ◌+◌, ◌≤◌, ◌<◌, ◌≡◌, ◌≢◌, refl, ap, true, false, Option, none, some, List, [], ◌∷◌, String,
  str_eq, eq_iff, arith, ltb, Bool-cases, inl, inr, if◌then◌else◌,
}
use auto_invest_manager.Redis.{Redis, IsRedis}
use auto_invest_manager.Automation.Lock.{holds}
use auto_invest_manager.Streams.Lease.{StreamLease, renew_lease, release_lease, acquire_lease}

not_holds : (o : Option String) (v : String) → o ≢ some v → holds o v ≡ false
not_holds none v h = refl
not_holds (some w) v h = elim (Bool-cases (str_eq w v)) [
  | inl e ↦ absurd (h (ap some ((eq_iff w v).0 e)))
  | inr e ↦ e
]

module _ (R : Redis) (law : IsRedis R) (ttl : ℕ) where
  open R use {State, get}

  -- A renewal by the owner is granted and sets the time back to the full length.
  pub renew_own :
      (lease : StreamLease) (s : State) (now later : ℕ)
      → get s now lease.key ≡ some lease.owner_token
      → now ≤ later
      → let (s', renewed) = renew_lease R ttl lease s now in
        (renewed ≡ true)
        × (get s' later lease.key
            ≡ (if ltb later (now + ttl) then some lease.owner_token else none))
  unfolding renew_lease
  renew_own lease s now later h le = ground (
    arith,
    eq_iff lease.owner_token lease.owner_token,
    eq_iff lease.key lease.key,
    law.get-expire s now later lease.key lease.owner_token lease.key ttl h le,
  )

  -- Neither renewal nor release does anything for a caller whose token the key does not hold.
  pub lost_lease :
      (lease : StreamLease) (s : State) (now : ℕ)
      → get s now lease.key ≢ some lease.owner_token
      → (renew_lease R ttl lease s now ≡ (s, false)) × (release_lease R lease s now ≡ (s, false))
  unfolding renew_lease release_lease
  lost_lease lease s now h = ground (arith, not_holds (get s now lease.key) lease.owner_token h)

  -- The renewals of a listener, at the given times.
  abbrev pub renew_at : StreamLease → List ℕ → State → State
  renew_at lease [] s = s
  renew_at lease (now ∷ times) s = renew_at lease times (renew_lease R ttl lease s now).0

  -- Each time comes before the lease of the one before is over.
  abbrev pub InTime : ℕ → List ℕ → ℕ → Type 0
  InTime last [] later = (last ≤ later) × (later < last + ttl)
  InTime last (now ∷ times) later = (last ≤ now) × (now < last + ttl) × InTime now times later

  renewed-InTime :
      (lease : StreamLease) (times : List ℕ) (s : State) (last later : ℕ)
      → ((u : ℕ) → last ≤ u → u < last + ttl → get s u lease.key ≡ some lease.owner_token)
      → InTime last times later
      → get (renew_at lease times s) later lease.key ≡ some lease.owner_token
  renewed-InTime lease [] s last later h i = h later i.0 i.1
  renewed-InTime lease (now ∷ times) s last later h i =
      renewed-InTime lease times (renew_lease R ttl lease s now).0 now later
        (λ u le lt. ground (arith, (renew_own lease s now u (h now i.0 i.1) le).1)) i.2

  -- A listener that acquires a free lease and renews it each time before it is over holds it all
  -- the while, so that no other listener is granted it.
  pub lease_kept :
      (s : State) (start later : ℕ) (owner other key : String) (times : List ℕ)
      → get s start key ≡ none
      → InTime start times later
      → let s' =
          renew_at
            (record { key = key; owner_token = owner })
            times
            (acquire_lease R ttl owner key s start).0 in
        (get s' later key ≡ some owner) × (acquire_lease R ttl other key s' later ≡ (s', none))
  unfolding acquire_lease
  lease_kept s start later owner other key times h i =
      let lease : StreamLease = record { key = key; owner_token = owner } in
      let held =
        renewed-InTime lease times (acquire_lease R ttl owner key s start).0 start later
          (λ u le lt. ground (
            arith,
            law.get-set s start u key owner key ttl h le,
            eq_iff key key,
            law.set_free s start key owner ttl h,
          ))
          i in
      (
        held,
        rw (
            law.set_taken (renew_at lease times (acquire_lease R ttl owner key s start).0) later key
              owner other ttl held),
      )
