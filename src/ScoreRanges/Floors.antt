-- ===== src/ScoreRanges/Floors.antt =====
-- core/strategy_score_ranges.py: how the floors of a strategy stand to each other.
use binance_future_bot.Base.{
  ℕ, ◌-◌, ◌≤◌, ◌<◌, ◌≡◌, ◌⊎◌, inl, inr, Bool-cases, ltb, leb, min, if◌then◌else◌, arith,
}
use binance_future_bot.Base.Text.{Text}
use binance_future_bot.ScoreRanges.{RangeConfig, score_range_for}

lowered-lt :
    (super hot : ℕ) → 0 < super → (if leb super hot then min hot (super - 100) else hot) < super
lowered-lt super hot h = ground arith

-- For every strategy, whatever the overrides: the Super floor is at least the minimum score of
-- execution for the strategy's tag, and the Hot floor is below the Super floor, unless that is 0.
score_range_for_floors :
    (c : RangeConfig) (strategy : Text)
    → ((score_range_for c strategy).execution_min ≤ (score_range_for c strategy).super_score)
      × (((score_range_for c strategy).hot_score < (score_range_for c strategy).super_score)
          ⊎ ((score_range_for c strategy).super_score ≡ 0))
unfolding score_range_for
score_range_for_floors c strategy =
    let r = score_range_for c strategy in
    (
      omega arith,
      elim (Bool-cases (ltb 0 r.super_score)) [
        | inl positive ↦ inl (lowered-lt r.super_score _ (ground (arith, positive)))
        | inr zero_floor ↦ inr (ground (arith, zero_floor))
      ],
    )
