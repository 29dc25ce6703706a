-- ===== src/Execution/Risk.antt =====
-- app/execution/risk.py: the final check of an order against its context.
pub mod Admission
use auto_invest_manager.Base.{
  ℕ, ◌+◌, ◌-◌, ◌*◌, Bool, true, false, ◌&&◌, ◌||◌, not, List, [], ◌∷◌, ◌++◌, String, str_eq, ltb,
  leb, ◌==◌, if◌then◌else◌, RiskReason, Result, ok, err, Error,
}
use auto_invest_manager.Base.Decimal.{
  Decimal, from_int, hundredth, ◌+D◌, ◌-D◌, ◌*D◌, ◌/D◌, is_zero, lt_decimal, le_decimal, abs,
}
use auto_invest_manager.Models.Enums.{OrderDirection, is_mode}
use auto_invest_manager.Execution.Dto.{PlannedOrderData, RiskContext, RiskDecision}

-- `if test: reasons.append(reason)`
unfoldable pub when : Bool → RiskReason → List RiskReason
when true r = r ∷ []
when false r = []

abbrev pub trade_amount : PlannedOrderData → Decimal
trade_amount order = order.limit_price *D from_int order.lot_size *D from_int order.lots

abbrev pub slippage : PlannedOrderData → RiskContext → Decimal
slippage order context = abs (order.limit_price /D context.market_price -D from_int 1)

abbrev pub tick_tolerance : RiskContext → Decimal
tick_tolerance context = hundredth /D context.market_price

-- `(now - price_time).total_seconds() > max_price_age_seconds`, in microseconds; a price from the
-- future is not stale.
abbrev pub is_stale : RiskContext → Bool
is_stale context = ltb (context.max_price_age_seconds * 1000000) (context.now - context.price_time)

-- The last tests, by direction.
unfoldable pub direction_reasons : OrderDirection → PlannedOrderData → RiskContext → List RiskReason
unfolding when
direction_reasons OrderDirection.buy order context =
    let amount = trade_amount order in
    let projected_value = context.current_position_value +D amount in
    when (lt_decimal context.cash_available amount) RiskReason.insufficient_cash
    ++ when
        (le_decimal context.portfolio_value (from_int 0)
          || lt_decimal context.max_position_weight (projected_value /D context.portfolio_value))
        RiskReason.weight_exceeded
direction_reasons OrderDirection.sell order context =
    when (ltb context.current_position_lots order.lots) RiskReason.short_position

unfoldable pub all_reasons : PlannedOrderData → RiskContext → List RiskReason
unfolding direction_reasons when
all_reasons order context =
    when context.kill_switch RiskReason.kill_switch_active
    ++ (when
          (not (is_mode context.trade_mode context.required_trade_mode)
            || not (is_mode order.trade_mode context.required_trade_mode))
          RiskReason.trade_mode_mismatch
        ++ (when
              (str_eq context.account_id ""
                || not (str_eq context.account_id context.expected_account_id))
              RiskReason.account_mismatch
            ++ (when (not context.in_watchlist) RiskReason.not_in_watchlist
                ++ (when (not context.direction_allowed) RiskReason.direction_disabled
                    ++ (when (not context.api_trade_available || not context.order_type_available)
                          RiskReason.trading_status_rejects
                        ++ (when (is_stale context) RiskReason.price_stale
                            ++ (when
                                  (lt_decimal
                                    (context.max_slippage_percent +D tick_tolerance context)
                                    (slippage order context))
                                  RiskReason.slippage_exceeded
                                ++ (when (lt_decimal context.max_trade_amount (trade_amount order))
                                      RiskReason.amount_exceeded
                                    ++ (when (leb context.max_daily_trades context.daily_trades)
                                          RiskReason.daily_limit_reached
                                        ++ (when context.cooldown_active RiskReason.cooldown_active
                                            ++ (when context.idempotency_key_exists
                                                  RiskReason.key_exists
                                                ++ (when context.duplicate_active_order
                                                      RiskReason.duplicate_order
                                                    ++ direction_reasons order.direction order
                                                        context))))))))))))

abbrev pub is_empty : List RiskReason → Bool
is_empty [] = true
is_empty (r ∷ rs) = false

-- `RiskManager.evaluate`; a market price of zero raises at the division.
unfoldable pub evaluate : PlannedOrderData → RiskContext → Result RiskDecision
unfolding all_reasons
evaluate order context =
    if is_zero context.market_price
    then err Error.division_by_zero
    else ok (record {
      allowed = is_empty (all_reasons order context);
      reasons = all_reasons order context;
    })
