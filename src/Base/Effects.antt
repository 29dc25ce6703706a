-- ===== src/Base/Effects.antt =====
-- Methods that change the state and may raise: an action takes the state before and returns the
-- result and the state after. What was written before a raise stays written.
use mathlib.Core.Path.{◌≡◌, refl}
use mathlib.Core.Bool.{Bool, true, false}
use mathlib.Core.Logic.{◌⊎◌, inl, inr}
use mathlib.Core.Option.{Option, none, some}
use mathlib.Core.List.{List}
use Prim.Native.Nat.{ℕ}
use Prim.Native.String.{String}

-- The reasons of `RiskManager.evaluate`, in the words of its messages.
pub data RiskReason : Type 0 where
  kill_switch_active trade_mode_mismatch account_mismatch not_in_watchlist : RiskReason
  direction_disabled trading_status_rejects price_stale slippage_exceeded : RiskReason
  amount_exceeded daily_limit_reached cooldown_active key_exists duplicate_order : RiskReason
  insufficient_cash weight_exceeded short_position : RiskReason

-- The exception classes that the code raises or catches.
pub data Error : Type 0 where
  resource_not_found resource_conflict execution_planning portfolio_optimization : Error
  signal_calculation instrument_not_found broker_configuration broker_temporary : Error
  timeout connection os value_error runtime key_error index_error division_by_zero : Error
  integrity other : Error
  risk_rejected : List RiskReason → Error
  -- the seconds to wait, in milliseconds
  rate_limit : Option ℕ → Error
  -- an error with a `code()`, and the delay of its trailing metadata in milliseconds
  rpc : String → Option ℕ → Error

pub data Result (A : Type 0) : Type 0 where
  ok : A → Result A
  err : Error → Result A

abbrev pub Action : Type 0 → Type 0 → Type 0
Action S A = S → Result A × S

module _ {S A : Type 0} where
  abbrev pub pure : A → Action S A
  pure a s = (ok a, s)

  abbrev pub raise : Error → Action S A
  raise e s = (err e, s)

  abbrev pub lift : Result A → Action S A
  lift r s = (r, s)

  abbrev pub gets : (S → A) → Action S A
  gets f s = (ok (f s), s)

  -- `if x is None: raise e`
  abbrev pub or_raise : Option A → Error → Action S A
  or_raise none e s = (err e, s)
  or_raise (some a) e s = (ok a, s)

infixl 5 ◌>>=◌ ◌>>◌
abbrev pub ◌>>=◌ : {S A B : Type 0} → Action S A → (A → Action S B) → Action S B
◌>>=◌ m f s = let (r, s') = m s in elim r [ ok a ↦ f a s' | err e ↦ (err e, s') ]

abbrev pub ◌>>◌ : {S A B : Type 0} → Action S A → Action S B → Action S B
m >> k = m >>= λ _. k

abbrev pub raise_if : {S : Type 0} → Bool → Error → Action S (Unit {0})
raise_if true e s = (err e, s)
raise_if false e s = (ok tt, s)

abbrev pub modify : {S : Type 0} → (S → S) → Action S (Unit {0})
modify f s = (ok tt, f s)

pub Result-cases :
    {A : Type 0} (r : Result A) → ((a : A) × (r ≡ ok a)) ⊎ ((e : Error) × (r ≡ err e))
Result-cases (ok a) = inl (a, refl)
Result-cases (err e) = inr (e, refl)
