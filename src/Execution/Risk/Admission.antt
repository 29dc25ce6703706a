-- ===== src/Execution/Risk/Admission.antt =====
-- What an order must satisfy to pass `RiskManager.evaluate`, stated without its list of reasons.
use auto_invest_manager.Base.{
  ℕ, ◌+◌, ◌*◌, ◌<◌, ◌≤◌, ◌≡◌, ◌≢◌, ◌↔◌, refl, Bool, true, false, ◌||◌, not, List, [], ◌∷◌, ◌++◌,
  String, str_eq, eq_iff, arith, RiskReason, ok, ||-eq-false, ltb, leb,
}
use auto_invest_manager.Base.Decimal.{from_int, ◌+D◌, ◌/D◌, ◌≤D◌, lt_decimal, le_decimal, Decimal}
use auto_invest_manager.Models.Enums.{OrderDirection, is_mode, is_mode→eq, TradeMode}
use auto_invest_manager.Execution.Dto.{PlannedOrderData, RiskContext, RiskDecision}
use auto_invest_manager.Execution.Risk.{
  when, trade_amount, slippage, tick_tolerance, is_stale, direction_reasons, all_reasons, is_empty,
  evaluate,
}

-- A purchase is covered by cash and keeps the position within its weight; a sale is covered by
-- the position.
abbrev pub IsCovered : OrderDirection → PlannedOrderData → RiskContext → Type 0
IsCovered OrderDirection.buy order context =
    (trade_amount order ≤D context.cash_available)
    × (¬ (context.portfolio_value ≤D from_int 0))
    × ((context.current_position_value +D trade_amount order) /D context.portfolio_value
        ≤D context.max_position_weight)
IsCovered OrderDirection.sell order context = order.lots ≤ context.current_position_lots

pub record IsAdmissible (order : PlannedOrderData) (context : RiskContext) : Type 0 where
  pub kill_switch : context.kill_switch ≡ false
  pub system_mode : context.trade_mode ≡ context.required_trade_mode
  pub order_mode : order.trade_mode ≡ context.required_trade_mode
  pub account_named : context.account_id ≢ ""
  pub account : context.account_id ≡ context.expected_account_id
  pub watched : context.in_watchlist ≡ true
  pub direction : context.direction_allowed ≡ true
  pub api_trade : context.api_trade_available ≡ true
  pub order_type : context.order_type_available ≡ true
  pub fresh : context.now ≤ context.price_time + context.max_price_age_seconds * 1000000
  pub price : slippage order context ≤D context.max_slippage_percent +D tick_tolerance context
  pub amount : trade_amount order ≤D context.max_trade_amount
  pub daily : context.daily_trades < context.max_daily_trades
  pub cooldown : context.cooldown_active ≡ false
  pub key : context.idempotency_key_exists ≡ false
  pub duplicate : context.duplicate_active_order ≡ false
  pub covered : IsCovered order.direction order context

peel :
    (b : Bool) (r : RiskReason) (rest : List RiskReason)
    → when b r ++ rest ≡ []
    → (b ≡ false) × (rest ≡ [])
unfolding when
peel true r rest e = cc
peel false r rest e = (refl, e)

unpeel :
    (b : Bool) (r : RiskReason) (rest : List RiskReason)
    → b ≡ false
    → rest ≡ []
    → when b r ++ rest ≡ []
unfolding when
unpeel true r rest e f = cc
unpeel false r rest e f = f

is_empty→nil : (rs : List RiskReason) → is_empty rs ≡ true → rs ≡ []
is_empty→nil [] h = refl
is_empty→nil (r ∷ rs) h = cc

not-false : (b : Bool) → not b ≡ false → b ≡ true
not-false b h = ground arith

not_lt : (a b : Decimal) → lt_decimal b a ≡ false → a ≤D b
not_lt a b h = ground arith

lt_of_not_le : (a b : Decimal) → ¬ (a ≤D b) → le_decimal a b ≡ false
lt_of_not_le a b h = ground arith

not_le_of_lt : (a b : Decimal) → le_decimal a b ≡ false → ¬ (a ≤D b)
not_le_of_lt a b h = ground arith

le_not_lt : (a b : Decimal) → a ≤D b → lt_decimal b a ≡ false
le_not_lt a b h = ground arith

||-false : (a b : Bool) → a ≡ false → b ≡ false → (a || b) ≡ false
||-false a b h k = ground arith

named : (s : String) → str_eq s "" ≡ false → s ≢ ""
named s h = ground (arith, eq_iff s "")

unnamed : (s : String) → s ≢ "" → str_eq s "" ≡ false
unnamed s h = ground (arith, eq_iff s "")

same_text : (s t : String) → s ≡ t → not (str_eq s t) ≡ false
same_text s t h = ground (arith, eq_iff s t)

same_mode : (a b : TradeMode) → a ≡ b → not (is_mode a b) ≡ false
same_mode a b h = ground arith

is_fresh :
    (context : RiskContext)
    → (is_stale context ≡ false)
      ↔ (context.now ≤ context.price_time + context.max_price_age_seconds * 1000000)
is_fresh context = ground arith

below_limit : (n m : ℕ) → (leb m n ≡ false) ↔ (n < m)
below_limit n m = ground arith

enough_lots : (n m : ℕ) → (ltb m n ≡ false) ↔ (n ≤ m)
enough_lots n m = ground arith

when-nil : (b : Bool) (r : RiskReason) → when b r ≡ [] → b ≡ false
unfolding when
when-nil true r e = cc
when-nil false r e = refl

nil-when : (b : Bool) (r : RiskReason) → b ≡ false → when b r ≡ []
unfolding when
nil-when b r e = rw e

direction_reasons-IsCovered :
    (d : OrderDirection) (order : PlannedOrderData) (context : RiskContext)
    → direction_reasons d order context ≡ []
    → IsCovered d order context
unfolding direction_reasons
direction_reasons-IsCovered OrderDirection.buy order context e =
    let (c, e1) = peel _ _ _ e in
    let (v, w) = ||-eq-false _ _ (when-nil _ _ e1) in
    (not_lt _ _ c, not_le_of_lt _ _ v, not_lt _ _ w)
direction_reasons-IsCovered OrderDirection.sell order context e =
    (enough_lots _ _).0 (when-nil _ _ e)

IsCovered-direction_reasons :
    (d : OrderDirection) (order : PlannedOrderData) (context : RiskContext)
    → IsCovered d order context
    → direction_reasons d order context ≡ []
unfolding direction_reasons
IsCovered-direction_reasons OrderDirection.buy order context (c, v, w) =
    unpeel _ _ _ (le_not_lt _ _ c)
      (nil-when _ _ (||-false _ _ (lt_of_not_le _ _ v) (le_not_lt _ _ w)))
IsCovered-direction_reasons OrderDirection.sell order context h =
    nil-when _ _ ((enough_lots _ _).1 h)

all_reasons-IsAdmissible :
    (order : PlannedOrderData) (context : RiskContext)
    → all_reasons order context ≡ []
    → IsAdmissible order context
unfolding all_reasons
all_reasons-IsAdmissible order context e =
    let (k, e1) = peel _ _ _ e in
    let (m, e2) = peel _ _ _ e1 in
    let (a, e3) = peel _ _ _ e2 in
    let (w, e4) = peel _ _ _ e3 in
    let (d, e5) = peel _ _ _ e4 in
    let (t, e6) = peel _ _ _ e5 in
    let (f, e7) = peel _ _ _ e6 in
    let (p, e8) = peel _ _ _ e7 in
    let (x, e9) = peel _ _ _ e8 in
    let (y, e10) = peel _ _ _ e9 in
    let (c, e11) = peel _ _ _ e10 in
    let (i, e12) = peel _ _ _ e11 in
    let (u, e13) = peel _ _ _ e12 in
    let (m1, m2) = ||-eq-false _ _ m in
    let (a1, a2) = ||-eq-false _ _ a in
    let (t1, t2) = ||-eq-false _ _ t in
    record {
      kill_switch = k;
      system_mode = is_mode→eq _ _ (not-false _ m1);
      order_mode = is_mode→eq _ _ (not-false _ m2);
      account_named = named _ a1;
      account = (eq_iff _ _).0 (not-false _ a2);
      watched = not-false _ w;
      direction = not-false _ d;
      api_trade = not-false _ t1;
      order_type = not-false _ t2;
      fresh = (is_fresh context).0 f;
      price = not_lt _ _ p;
      amount = not_lt _ _ x;
      daily = (below_limit _ _).0 y;
      cooldown = c;
      key = i;
      duplicate = u;
      covered = direction_reasons-IsCovered order.direction order context e13;
    }

true-not : (b : Bool) → b ≡ true → not b ≡ false
true-not b h = rw h

IsAdmissible-all_reasons :
    (order : PlannedOrderData) (context : RiskContext)
    → IsAdmissible order context
    → all_reasons order context ≡ []
unfolding all_reasons
IsAdmissible-all_reasons order context h = unpeel _ _ _ h.kill_switch (
    unpeel _ _ _ (||-false _ _ (same_mode _ _ h.system_mode) (same_mode _ _ h.order_mode)) (
      unpeel _ _ _ (||-false _ _ (unnamed _ h.account_named) (same_text _ _ h.account)) (
        unpeel _ _ _ (true-not _ h.watched) (
          unpeel _ _ _ (true-not _ h.direction) (
            unpeel _ _ _ (||-false _ _ (true-not _ h.api_trade) (true-not _ h.order_type)) (
              unpeel _ _ _ ((is_fresh context).1 h.fresh) (
                unpeel _ _ _ (le_not_lt _ _ h.price) (
                  unpeel _ _ _ (le_not_lt _ _ h.amount) (
                    unpeel _ _ _ ((below_limit _ _).1 h.daily) (
                      unpeel _ _ _ h.cooldown (
                        unpeel _ _ _ h.key (
                          unpeel _ _ _ h.duplicate (
                            IsCovered-direction_reasons order.direction order context
                              h.covered)))))))))))))

is_empty-eq-true : (rs : List RiskReason) → rs ≡ [] → is_empty rs ≡ true
is_empty-eq-true rs h = rw h

-- Whenever the check returns, it allows the order exactly when the order is admissible.
pub evaluate_allowed_iff :
    (order : PlannedOrderData) (context : RiskContext) {d : RiskDecision}
    → evaluate order context ≡ ok d
    → (d.allowed ≡ true) ↔ IsAdmissible order context
unfolding evaluate
evaluate_allowed_iff order context {d} e = (
  λ allowed. all_reasons-IsAdmissible order context (is_empty→nil _ (ground arith)),
  λ h. ground (arith, is_empty-eq-true _ (IsAdmissible-all_reasons order context h)),
)
