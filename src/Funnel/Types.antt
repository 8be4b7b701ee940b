-- ===== src/Funnel/Types.antt =====
-- core/tier_funnel.py: the state of the funnel and the values of config.py that it reads. Times are
-- milliseconds, a time of 0 stands for none, and scores are hundredths. The payloads of candidates,
-- the digest and the messages are left out.
use binance_future_bot.Base.{ℕ, Bool, List, min, max}
use binance_future_bot.Base.Text.{Text}
use binance_future_bot.Base.Dict.{Dict}
use binance_future_bot.PaceWindow.{MinuteWindow}
use binance_future_bot.ScoreRanges.{StrategyScoreRange}

pub record Config : Type 0 where
  pub universe_size : ℕ
  pub lock_ms : ℕ
  pub passes_per_lock : ℕ
  pub ingest_interval : ℕ
  pub super_batch_size : ℕ
  pub pending_cooldown : ℕ
  pub pending_max_passes : ℕ
  pub demote_cooldown : ℕ
  pub day_ms_per_super : ℕ
  pub day_max_ms : ℕ
  -- `backtest_min_bars()`
  pub min_bars : ℕ
  -- `score_range_for`
  pub range_for : Text → StrategyScoreRange

-- The clamps of config.py.
unfoldable pub hot_pending_cooldown : Config → ℕ
hot_pending_cooldown c = min (max c.pending_cooldown 120000) 180000

unfoldable pub hot_pending_max_passes : Config → ℕ
hot_pending_max_passes c = min (max c.pending_max_passes 2) 5

unfoldable pub hot_history_demote_cooldown : Config → ℕ
hot_history_demote_cooldown c = min (max c.demote_cooldown 1800000) 3600000

pub record HotRecord : Type 0 where
  pub symbol : Text
  pub strategy : Text
  pub backup_strategies : List Text
  pub score : ℕ
  pub action : Text
  pub backtest_passed : Bool
  pub backtest_pending : Bool
  pub pending_reason : Text
  pub pending_passes : ℕ
  pub pending_pass_limit : ℕ
  pub history_bars : ℕ
  pub history_pct : ℕ
  pub last_history_pct : ℕ
  pub rest_cooldown_until : ℕ
  pub backup_index : ℕ

pub record SuperRecord : Type 0 where
  pub symbol : Text
  pub strategy : Text
  pub backup_strategies : List Text
  pub score : ℕ

pub record TierFunnel : Type 0 where
  pub candidates : List Text
  pub normal : List Text
  pub demoted_hold : List Text
  pub normal_index : ℕ
  pub ingest_index : ℕ
  pub lock_started : ℕ
  pub lock_cycle : ℕ
  pub pass_number : ℕ
  pub scans_this_window : ℕ
  pub current_index : ℕ
  pub current_symbol : Text
  pub last_normal_take : ℕ
  pub last_flushed : List Text
  pub flush_count : ℕ
  pub normal_scores : Dict Text ℕ
  pub kline_pending : List Text
  pub recently_scanned : List Text
  pub recent_cap : ℕ
  pub hot : Dict Text HotRecord
  pub hot_order : List Text
  pub hot_index : ℕ
  pub hot_rest_index : ℕ
  pub super : Dict Text SuperRecord
  pub super_order : List Text
  pub super_index : ℕ
  pub promoted : List Text
  pub normal_clock : MinuteWindow
  pub hot_clock : MinuteWindow
  pub super_clock : MinuteWindow
  pub pending_hot_rest : List Text
  pub demote_cooldown_until : Dict Text ℕ
  pub day_validation_until : ℕ
  pub day_validation_started : ℕ
  pub day_validation_initial : ℕ
