-- ===== src/Base/Keeping.antt =====
-- Predicates of the state that every part of an action keeps, raised errors included.
use mathlib.Core.Bool.{Bool, true, false}
use mathlib.Core.Option.{Option, none, some}
use auto_invest_manager.Base.Effects.{
  Result, ok, err, Error, Action, pure, gets, lift, or_raise, raise_if, ◌>>=◌, ◌>>◌,
}

module _ {S : Type 0} (I : S → Type 0) where
  unfoldable pub Keeps : {A : Type 0} → Action S A → Type 0
  Keeps m = (s : S) → I s → I (m s).1

  bind-pair :
      {A B : Type 0} (k : A → Action S B)
      → ((a : A) (s : S) → I s → I (k a s).1)
      → (p : Result A × S) → I p.1
      → I (elim p.0 as (λ r. Result B × S) [ ok a ↦ k a p.1 | err e ↦ (err e, p.1) ]).1
  bind-pair k hk (ok a, s) h = hk a s h
  bind-pair k hk (err e, s) h = h

  pub Keeps-bind :
      {A B : Type 0} (m : Action S A) (k : A → Action S B)
      → Keeps m
      → ((a : A) → Keeps (k a))
      → Keeps (m >>= k)
  unfolding Keeps
  Keeps-bind m k hm hk s h = bind-pair k hk (m s) (hm s h)

  pub Keeps-then :
      {A B : Type 0} (m : Action S A) (k : Action S B) → Keeps m → Keeps k → Keeps (m >> k)
  Keeps-then m k hm hk = Keeps-bind m (λ a. k) hm (λ a. hk)

  pub Keeps-pure : {A : Type 0} (a : A) → Keeps (pure a)
  unfolding Keeps
  Keeps-pure a s h = h

  pub Keeps-lift : {A : Type 0} (r : Result A) → Keeps (lift r)
  unfolding Keeps
  Keeps-lift r s h = h

  pub Keeps-gets : {A : Type 0} (f : S → A) → Keeps (gets f)
  unfolding Keeps
  Keeps-gets f s h = h

  pub Keeps-or_raise : {A : Type 0} (o : Option A) (e : Error) → Keeps (or_raise o e)
  unfolding Keeps
  Keeps-or_raise none e s h = h
  Keeps-or_raise (some a) e s h = h

  pub Keeps-raise_if : (b : Bool) (e : Error) → Keeps (raise_if b e)
  unfolding Keeps
  Keeps-raise_if true e s h = h
  Keeps-raise_if false e s h = h
