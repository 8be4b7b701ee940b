-- ===== src/Funnel/Tiers/Reached.antt =====
-- core/tier_funnel.py: the tiers after any calls.
use binance_future_bot.Base.{ℕ, refl, List, [], ◌∷◌, arith, mem, Bool-cases, inl, inr, text_eq}
use binance_future_bot.Base.Text.{Text, upper}
use binance_future_bot.Base.Dict.{keys, lookup, lookup-eq-none}
use binance_future_bot.Assignment.Types.{StrategyScore}
use binance_future_bot.Funnel.Types.{Config, TierFunnel}
use binance_future_bot.Funnel.{
  new_funnel, clear_kline_pending, flush_non_setup, replace_normal_universe,
}
use binance_future_bot.Funnel.Hot.{note_hot_rest_started, release_hot_rest}
use binance_future_bot.Funnel.Super.{apply_hot_scores}
use binance_future_bot.Funnel.Calls.{
  Call, after_call, after_calls, kline_pending, kline_loaded, normal_score, normal_scan, promotion,
  new_universe, flush, normal_turn, rest_turn, rescore_turn, super_turn, day_start, day_tick,
  super_turns, rest_started, rest_released, backtest_pending, backtest_refused, backtest_accepted,
  hot_scores, filled, demoted, dropped,
}
use binance_future_bot.Funnel.Tiers.{tiering_of, Valid, Valid-of}
use binance_future_bot.Funnel.Tiers.Kept.{
  note_kline_pending-same, note_normal_score-same, take_normal-same, take_hot_for_rest-same,
  take_hot_for_rescore-same, take_super-same, take_super_batch-same, begin_day_validation-same,
  maybe_finish_day_validation-same,
}
use binance_future_bot.Funnel.Tiers.Moves.{
  IsValid, record_normal_scan-Valid, promote_from_normal-Valid, on_backtest_passed-Valid,
  on_backtest_failed-Valid, note_hot_backtest_pending-Valid, note_filled-Valid,
  demote_super_to_normal-Valid, drop_super-Valid,
}
use binance_future_bot.Funnel.Tiers.Rescore.{apply_hot_scores-Placed}

apply_hot_scores-Valid :
    {left : List Text} (c : Config) (now : ℕ) (symbol : Text) (scores : List StrategyScore)
    (m : TierFunnel)
    → IsValid left m
    → IsValid left (apply_hot_scores c now symbol scores m).0
unfolding apply_hot_scores
apply_hot_scores-Valid c now symbol scores m v =
    elim (Bool-cases (mem (upper symbol) (keys m.hot))) [
      | inl there ↦ (apply_hot_scores-Placed c now symbol scores m v there).valid
      | inr absent ↦
          let nothing = lookup-eq-none (upper symbol) m.hot absent in Valid-of (ground arith) v
    ]

-- The coins that `drop_super` took out of Super, after a call and after a sequence.
abbrev pub left_by : Call → List Text → List Text
left_by (dropped symbol) left = upper symbol ∷ left
left_by call left = left

abbrev pub left_after : List Call → List Text → List Text
left_after [] left = left
left_after (call ∷ calls) left = left_after calls (left_by call left)

pub after_call-Valid :
    {left : List Text} (c : Config) (call : Call) (m : TierFunnel)
    → IsValid left m
    → IsValid (left_by call left) (after_call c call m)
unfolding after_call flush_non_setup replace_normal_universe clear_kline_pending
    note_hot_rest_started release_hot_rest
after_call-Valid c (kline_pending symbol) m v = Valid-of (note_kline_pending-same symbol m) v
after_call-Valid c (kline_loaded symbol) m v = v
after_call-Valid c (normal_score symbol score) m v =
    Valid-of (note_normal_score-same symbol score m) v
after_call-Valid c (normal_scan now symbol scores) m v =
    record_normal_scan-Valid c now symbol scores m v
after_call-Valid c (promotion now symbol scores) m v =
    promote_from_normal-Valid c now symbol scores m v
after_call-Valid c (new_universe clock now symbols keep) m v = v
after_call-Valid c (flush now keep) m v = v
after_call-Valid c (normal_turn now) m v = Valid-of (take_normal-same c now m) v
after_call-Valid c (rest_turn now) m v = Valid-of (take_hot_for_rest-same now m) v
after_call-Valid c (rescore_turn now) m v = Valid-of (take_hot_for_rescore-same now m) v
after_call-Valid c (super_turn now) m v = Valid-of (take_super-same now m) v
after_call-Valid c (day_start now) m v = Valid-of (begin_day_validation-same c now m) v
after_call-Valid c (day_tick now) m v = Valid-of (maybe_finish_day_validation-same now m) v
after_call-Valid c super_turns m v = Valid-of (take_super_batch-same c m) v
after_call-Valid c (rest_started symbol) m v = v
after_call-Valid c (rest_released symbol) m v = v
after_call-Valid c (backtest_pending now symbol p) m v =
    note_hot_backtest_pending-Valid c now symbol p m v
after_call-Valid c (backtest_refused now symbol reason) m v =
    on_backtest_failed-Valid c now symbol reason m v
after_call-Valid c (backtest_accepted symbol) m v = on_backtest_passed-Valid symbol m v
after_call-Valid c (hot_scores now symbol scores) m v =
    apply_hot_scores-Valid c now symbol scores m v
after_call-Valid c (filled symbol) m v = note_filled-Valid symbol m v
after_call-Valid c (demoted symbol) m v = demote_super_to_normal-Valid symbol m v
after_call-Valid c (dropped symbol) m v = drop_super-Valid symbol m v

pub after_calls_from-Valid :
    {left : List Text} (c : Config) (calls : List Call) (m : TierFunnel)
    → IsValid left m
    → IsValid (left_after calls left) (after_calls c calls m)
unfolding after_calls
after_calls_from-Valid {left = left} c [] m v = v
after_calls_from-Valid {left = left} c (call ∷ calls) m v =
    after_calls_from-Valid {left = left_by call left} c calls (after_call c call m)
      (after_call-Valid c call m v)

new_funnel-Valid :
    (c : Config) (normal_rate hot_rate super_rate : ℕ)
    → IsValid [] (new_funnel c normal_rate hot_rate super_rate)
unfolding lookup
new_funnel-Valid c normal_rate hot_rate super_rate = record {
  hot_once = tt;
  super_once = tt;
  hot_order_once = tt;
  super_order_once = tt;
  hot_listed = λ k. refl;
  super_listed = λ k. refl;
  apart = λ k h. cc;
  promoted_once = tt;
  promoted_all = λ k h. cc;
  promoted_only = λ k h. cc;
  named = λ k rec found. cc found;
  in_upper = λ k h. cc;
}

-- From a new funnel on, any sequence of its operations keeps the tiers valid: no coin is twice in a
-- tier or in both, each order lists the coins of its tier once, a Hot record carries the symbol it
-- stands under, in upper case, every coin of Hot and Super is among the promoted, and a promoted coin is in Hot or
-- in Super unless `drop_super` was called for it.
pub after_calls-Valid :
    (c : Config) (normal_rate hot_rate super_rate : ℕ) (calls : List Call)
    → Valid
        (left_after calls [])
        (tiering_of (after_calls c calls (new_funnel c normal_rate hot_rate super_rate)))
after_calls-Valid c normal_rate hot_rate super_rate calls =
    after_calls_from-Valid c calls (new_funnel c normal_rate hot_rate super_rate)
      (new_funnel-Valid c normal_rate hot_rate super_rate)
