-- ===== src/Portfolio/Dto.antt =====
-- app/portfolio/dto.py
use auto_invest_manager.Base.{ℕ, Bool, Option, List, String}
use auto_invest_manager.Base.Decimal.{Decimal}
use auto_invest_manager.Models.Enums.{AllocationAction}

-- `current_lots` is an int of either sign, here a decimal; `lot_size` and `priority` are not negative.
pub record AssetInput : Type 0 where
  pub instrument_uid : String
  pub signal_score : Decimal
  pub current_value : Decimal
  pub current_lots : Decimal
  pub price : Decimal
  pub lot_size : ℕ
  pub buy_enabled : Bool
  pub sell_enabled : Bool
  pub max_weight : Option Decimal
  pub manual_target_weight : Option Decimal
  pub priority : ℕ
  pub cooldown_active : Bool

pub record OptimizationConstraints : Type 0 where
  pub max_position_weight : Decimal
  pub min_cash_weight : Decimal
  pub rebalance_threshold : Decimal

pub record TargetWeight : Type 0 where
  pub asset : AssetInput
  pub weight : Decimal

pub record OptimizationResult : Type 0 where
  pub targets : List TargetWeight
  pub cash_weight : Decimal

pub record PlannedAllocation : Type 0 where
  pub asset : AssetInput
  pub target_weight : Decimal
  pub current_weight : Decimal
  pub target_amount : Decimal
  pub delta_amount : Decimal
  pub action : AllocationAction
  pub lots : ℕ
  pub reason : String

pub record RebalanceResult : Type 0 where
  pub allocations : List PlannedAllocation
  pub target_cash_weight : Decimal
  pub unallocated_cash : Decimal
