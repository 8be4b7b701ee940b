-- ===== src/Assignment/Types.antt =====
-- core/types.py and core/assignment_manager.py: scores, assignments and the pool's state, without
-- the fields of a score that the pool does not read.
use binance_future_bot.Base.{ℕ, Bool, Option}
use binance_future_bot.Base.Text.{Text}
use binance_future_bot.Base.Dict.{Dict}

-- The values of `Config` that the pool reads.
pub record Config : Type 0 where
  pub hot_size : ℕ
  pub promote_score : ℕ
  pub promote_normalized : ℕ
  pub demote_normalized : ℕ

pub record StrategyScore : Type 0 where
  pub symbol : Text
  pub strategy : Text
  pub score : ℕ
  pub adjusted_score : ℕ
  pub min_score : ℕ
  pub normalized_score : ℕ
  pub regime_fit : ℕ
  pub priority_weight : ℕ
  pub action : Text
  pub bar_open_ms : ℕ
  pub final_score : ℕ

pub record CoinAssignment : Type 0 where
  pub symbol : Text
  pub strategy : Text
  pub score : ℕ
  pub adjusted_score : ℕ
  pub normalized_score : ℕ
  pub min_score : ℕ
  pub assigned_bar_open_ms : ℕ
  pub assigned_at_ms : ℕ
  pub frozen : Bool

pub record AssignmentManager : Type 0 where
  pub promote_normalized : Option ℕ
  pub demote_normalized : Option ℕ
  pub max_hot : ℕ
  pub tier2 : Dict Text CoinAssignment
  pub last_best : Dict Text StrategyScore

-- What `update` returns: promoted, demoted, the demoted or evicted symbol.
pub record Outcome : Type 0 where
  pub promoted : Bool
  pub demoted : Bool
  pub symbol : Option Text
