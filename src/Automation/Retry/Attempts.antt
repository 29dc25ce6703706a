-- ===== src/Automation/Retry/Attempts.antt =====
-- Which calls `RetryPolicy.run` makes, what it returns after them, and how long it waits.
use auto_invest_manager.Base.{
  ℕ, zero, suc, ◌+◌, ◌-◌, ◌≤◌, Bool, true, false, Option, none, some, [], ◌∷◌, ◌≡◌, refl, ap, subst,
  ◌⊎◌, inl, inr, Result, ok, err, Error, Bool-cases, length, All, arith, if◌then◌else◌,
}
use auto_invest_manager.Automation.Retry.{
  RetryPolicy, Outcome, is_retryable, final_error, backoff_delay, run_with_retry, retry_loop,
  settle, pause, delay_or, retry_after,
}

suc_pred : {n : ℕ} → 1 ≤ n → suc (n - 1) ≡ n
suc_pred le = omega arith

module _ {A : Type 0} (operation : ℕ → Result A) where
  -- The calls number `first` to `first + n - 1` failed with errors that are worth another attempt.
  pub Retried : ℕ → ℕ → Type 0
  Retried first zero = Unit
  Retried first (suc n) =
      ((e : Error) × (operation first ≡ err e) × (is_retryable e ≡ true)) × Retried (suc first) n

  -- What the last call, of number `k`, makes of the result when `final` attempts are allowed.
  pub Concludes : ℕ → ℕ → Result A → Type 0
  Concludes k final r =
      ((a : A) × (operation k ≡ ok a) × (r ≡ ok a))
      ⊎ ((e : Error) × (operation k ≡ err e)
          × (((is_retryable e ≡ false) × (r ≡ err e))
              ⊎ ((is_retryable e ≡ true) × (k ≡ final) × (r ≡ err (final_error e)))))

  -- `n` calls that were retried, and one more that was not.
  pub Ends : ℕ → ℕ → Outcome A → Type 0
  Ends first final o =
      (n : ℕ) × (o.calls ≡ suc n)
      × (first + n ≤ final)
      × Retried first n
      × Concludes (first + n) final o.result

  stops :
      (first final : ℕ) (r : Result A)
      → first ≤ final
      → Concludes first final r
      → Ends first final (record { result = r; calls = 1; slept = [] })
  unfolding Ends Retried
  stops first final r le c =
      (0, refl, omega arith, tt, subst (λ (k : ℕ). Concludes k final r) (omega arith) c)

  goes_on :
      (policy : RetryPolicy) (u : ℕ → ℕ → ℕ) (first final : ℕ) (e : Error) (rest : Outcome A)
      → operation first ≡ err e
      → is_retryable e ≡ true
      → Ends (suc first) final rest
      → Ends first final (record {
        result = rest.result;
        calls = suc rest.calls;
        slept = pause policy u first e ∷ rest.slept;
      })
  unfolding Ends Retried
  goes_on policy u first final e rest h hr (n, calls, le, before, c) = (
    suc n,
    ap suc calls,
    omega arith,
    ((e, h, hr), before),
    subst (λ (k : ℕ). Concludes k final rest.result) (omega arith) c,
  )

  settle-Ends :
      (policy : RetryPolicy) (u : ℕ → ℕ → ℕ) (first final : ℕ) (last : Bool) (r : Result A)
      (rest : Outcome A)
      → operation first ≡ r
      → first ≤ final
      → (last ≡ true → first ≡ final)
      → (last ≡ false → Ends (suc first) final rest)
      → Ends first final (settle policy u operation first last r rest)
  unfolding Concludes
  settle-Ends policy u first final last (ok a) rest h le is_last more =
      stops first final (ok a) le (inl (a, h, refl))
  settle-Ends policy u first final last (err e) rest h le is_last more =
      elim (Bool-cases (is_retryable e)) [
        | inl hr ↦ elim (Bool-cases last) [
          | inl p ↦
              rw (hr, p)
                (stops first final (err (final_error e)) le (inr (e, h, inr (hr, is_last p, refl))))
          | inr p ↦ rw (hr, p) (goes_on policy u first final e rest h hr (more p))
        ]
        | inr hn ↦ rw hn (stops first final (err e) le (inr (e, h, inl (hn, refl))))
      ]

  loop-Ends :
      (policy : RetryPolicy) (u : ℕ → ℕ → ℕ) (remaining first final : ℕ)
      → final ≡ first + remaining
      → Ends first final (retry_loop policy u operation (suc remaining) first)
  unfolding retry_loop
  loop-Ends policy u zero first final p =
      settle-Ends policy u first final true (operation first) _ refl (omega arith)
        (λ q. omega arith) (λ q. absurd (ground arith))
  loop-Ends policy u (suc n) first final p =
      settle-Ends policy u first final false (operation first) _ refl (omega arith)
        (λ q. ground arith) (λ q. loop-Ends policy u n (suc first) final (omega arith))

-- With at least one attempt allowed, `RetryPolicy.run` ends with a call k of at most max_attempts
-- calls; every call before it failed with a retryable error; and its result is that of call k: the
-- value, the error if it is not retryable, or the final error if k is the last attempt.
pub run_with_retry-Ends :
    {A : Type 0} (policy : RetryPolicy) (u : ℕ → ℕ → ℕ) (operation : ℕ → Result A)
    → 1 ≤ policy.max_attempts
    → Ends operation 1 policy.max_attempts (run_with_retry policy u operation)
unfolding run_with_retry
run_with_retry-Ends policy u operation h =
    subst (λ (n : ℕ). Ends operation 1 policy.max_attempts (retry_loop policy u operation n 1))
      (suc_pred h)
      (loop-Ends operation policy u (policy.max_attempts - 1) 1 policy.max_attempts (omega arith))

delay_or_le :
    (d : Option ℕ) (maximum planned : ℕ) → planned ≤ maximum → delay_or d maximum planned ≤ maximum
delay_or_le none maximum planned h = h
delay_or_le (some d) maximum planned h = omega arith

backoff_delay_le :
    (policy : RetryPolicy) (k : ℕ) (e : Error) → backoff_delay policy k e ≤ policy.max_delay
unfolding backoff_delay
backoff_delay_le policy k e = delay_or_le (retry_after e) policy.max_delay _ (omega arith)

either_le : (b : Bool) {x y m : ℕ} → x ≤ m → y ≤ m → (if b then x else y) ≤ m
either_le true hx hy = hx
either_le false hx hy = hy

pause_le :
    (policy : RetryPolicy) (u : ℕ → ℕ → ℕ)
    → ((n d : ℕ) → u n d ≤ d)
    → (k : ℕ) (e : Error) → pause policy u k e ≤ policy.max_delay
pause_le policy u h k e =
    either_le policy.jitter
      (omega (arith, h k (backoff_delay policy k e), backoff_delay_le policy k e))
      (backoff_delay_le policy k e)

Waits : {A : Type 0} → ℕ → Outcome A → Type 0
Waits bound o = All (λ d. d ≤ bound) o.slept × (suc (length o.slept) ≡ o.calls)

settle-Waits :
    {A : Type 0} (policy : RetryPolicy) (u : ℕ → ℕ → ℕ) (operation : ℕ → Result A)
    → ((n d : ℕ) → u n d ≤ d)
    → (k : ℕ) (last : Bool) (r : Result A) (rest : Outcome A)
    → (last ≡ false → Waits policy.max_delay rest)
    → Waits policy.max_delay (settle policy u operation k last r rest)
unfolding Waits
settle-Waits policy u operation h k last (ok a) rest more = (tt, refl)
settle-Waits policy u operation h k last (err e) rest more = elim (Bool-cases (is_retryable e)) [
  | inl hr ↦ elim (Bool-cases last) [
    | inl p ↦ rw (hr, p) (tt, refl)
    | inr p ↦ rw (hr, p) ((pause_le policy u h k e, (more p).0), ap suc (more p).1)
  ]
  | inr hn ↦ rw hn (tt, refl)
]

loop-Waits :
    {A : Type 0} (policy : RetryPolicy) (u : ℕ → ℕ → ℕ) (operation : ℕ → Result A)
    → ((n d : ℕ) → u n d ≤ d)
    → (remaining k : ℕ) → Waits policy.max_delay (retry_loop policy u operation (suc remaining) k)
unfolding retry_loop
loop-Waits policy u operation h zero k =
    settle-Waits policy u operation h k true (operation k) _ (λ q. absurd (ground arith))
loop-Waits policy u operation h (suc n) k =
    settle-Waits policy u operation h k false (operation k) _
      (λ q. loop-Waits policy u operation h n (suc k))

-- If the jitter never lengthens a wait and at least one attempt is allowed, every wait of
-- `RetryPolicy.run`, also one that the broker asks for, is at most max_delay, and there is one wait
-- between any two calls and none after the last.
pub run_with_retry_waits :
    {A : Type 0} (policy : RetryPolicy) (u : ℕ → ℕ → ℕ) (operation : ℕ → Result A)
    → ((n d : ℕ) → u n d ≤ d)
    → 1 ≤ policy.max_attempts
    → All (λ d. d ≤ policy.max_delay) (run_with_retry policy u operation).slept
      × (suc (length (run_with_retry policy u operation).slept)
          ≡ (run_with_retry policy u operation).calls)
unfolding run_with_retry Waits
run_with_retry_waits policy u operation hu h =
    subst (λ (n : ℕ). Waits policy.max_delay (retry_loop policy u operation n 1)) (suc_pred h)
      (loop-Waits policy u operation hu (policy.max_attempts - 1) 1)
