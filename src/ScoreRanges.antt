-- ===== src/ScoreRanges.antt =====
-- core/strategy_score_ranges.py: the Hot and Super floors of a strategy. Scores are hundredths. The
-- environment's overrides and the minimum scores of config.py are arguments.
pub mod Floors
use binance_future_bot.Base.{
  ℕ, ◌+◌, ◌-◌, Bool, Option, none, some, min, max, leb, if◌then◌else◌, ◌=?◌, text_eq, ◌||◌,
}
use binance_future_bot.Base.Text.{Text, codes, upper}

pub record RangeConfig : Type 0 where
  pub env_hot : Text → Option ℕ
  pub env_super : Text → Option ℕ
  -- `getattr(Config, _MIN_SCORE_ATTR.get(tag, "STRATEGY_MIN_SCORE"))`
  pub min_score : Text → ℕ
  pub testnet_relax : Bool
  pub relax_by : ℕ

pub record StrategyScoreRange : Type 0 where
  pub super_score : ℕ
  pub hot_score : ℕ
  pub execution_min : ℕ

abbrev pub smc_trend : Text
smc_trend = codes "SMC_TREND"

abbrev pub smc_legacy : Text
smc_legacy = codes "SMC_MULTITF"

abbrev pub range_reversion : Text
range_reversion = codes "RANGE_REVERSION"

unfoldable pub effective_min_score : RangeConfig → ℕ → ℕ
effective_min_score c base = if c.testnet_relax then max 5000 (base - c.relax_by) else base

unfoldable pub canonical : Text → Text
canonical strategy = if upper strategy =? smc_legacy then smc_trend else upper strategy

unfoldable pub hot_default : RangeConfig → Text → ℕ
hot_default c tag =
    if tag =? smc_trend || tag =? smc_legacy
    then 6200
    else if tag =? range_reversion
    then 5800
    else c.min_score tag

unfoldable pub super_default : Text → ℕ → ℕ
super_default tag hot =
    if tag =? smc_trend || tag =? smc_legacy
    then 6800
    else if tag =? range_reversion
    then 6400
    else min 9900 (hot + 1000)

unfoldable pub execution_min_score : RangeConfig → Text → ℕ
unfolding canonical effective_min_score
execution_min_score c strategy = effective_min_score c (c.min_score (canonical strategy))

unfoldable pub score_range_for : RangeConfig → Text → StrategyScoreRange
unfolding canonical effective_min_score execution_min_score hot_default super_default
score_range_for c strategy =
    let tag = canonical strategy in
    let hot_raw : ℕ = elim (c.env_hot tag) [ none ↦ hot_default c tag | some h ↦ h ] in
    let super_raw : ℕ = elim (c.env_super tag) [ none ↦ super_default tag hot_raw | some s ↦ s ] in
    let hot = effective_min_score c hot_raw in
    let exec_min = execution_min_score c tag in
    let super = max (effective_min_score c super_raw) exec_min in
    record {
      super_score = super;
      hot_score = if leb super hot then min hot (super - 100) else hot;
      execution_min = exec_min;
    }

unfoldable pub meets_hot : StrategyScoreRange → ℕ → Bool
meets_hot r score = leb r.hot_score score

unfoldable pub meets_super : StrategyScoreRange → ℕ → Bool
meets_super r score = leb r.super_score score

pub data Band : Type 0 where
  super_band hot_band normal_band : Band

unfoldable pub classify : StrategyScoreRange → ℕ → Band
classify r score =
    if leb r.super_score score
    then super_band
    else if leb r.hot_score score
    then hot_band
    else normal_band
