-- ===== src/Funnel/Calls.antt =====
-- core/tier_funnel.py: its public operations as calls, and the funnel after them. A time is the
-- clock reading of the call.
use binance_future_bot.Base.{ℕ, List, [], ◌∷◌, text_eq}
use binance_future_bot.Base.Text.{Text}
use binance_future_bot.Assignment.Types.{StrategyScore}
use binance_future_bot.Funnel.Types.{Config, TierFunnel}
use binance_future_bot.Funnel.{
  note_kline_pending, clear_kline_pending, note_normal_score, flush_non_setup,
  replace_normal_universe, take_normal,
}
use binance_future_bot.Funnel.Hot.{
  record_normal_scan, promote_from_normal, take_hot_for_rest, take_hot_for_rescore,
  note_hot_rest_started, release_hot_rest,
}
use binance_future_bot.Funnel.Backtest.{
  Progress, note_hot_backtest_pending, on_backtest_failed, on_backtest_passed,
}
use binance_future_bot.Funnel.Super.{
  apply_hot_scores, take_super, take_super_batch, note_filled, demote_super_to_normal, drop_super,
  begin_day_validation, maybe_finish_day_validation,
}

pub data Call : Type 0 where
  kline_pending kline_loaded : Text → Call
  normal_score : Text → ℕ → Call
  normal_scan promotion : ℕ → Text → List StrategyScore → Call
  -- The second reading is that of the flush.
  new_universe : ℕ → ℕ → List Text → List Text → Call
  flush : ℕ → List Text → Call
  normal_turn rest_turn rescore_turn super_turn day_start day_tick : ℕ → Call
  super_turns : Call
  rest_started rest_released : Text → Call
  backtest_pending : ℕ → Text → Progress → Call
  backtest_refused : ℕ → Text → Text → Call
  backtest_accepted : Text → Call
  hot_scores : ℕ → Text → List StrategyScore → Call
  filled demoted dropped : Text → Call

unfoldable pub after_call : Config → Call → TierFunnel → TierFunnel
after_call c (kline_pending symbol) m = note_kline_pending symbol m
after_call c (kline_loaded symbol) m = clear_kline_pending symbol m
after_call c (normal_score symbol score) m = note_normal_score symbol score m
after_call c (normal_scan now symbol scores) m = (record_normal_scan c now symbol scores m).0
after_call c (promotion now symbol scores) m = (promote_from_normal c now symbol scores m).0
after_call c (new_universe clock now symbols keep) m =
    replace_normal_universe c clock now symbols keep m
after_call c (flush now keep) m = flush_non_setup now keep m
after_call c (normal_turn now) m = (take_normal c now m).0
after_call c (rest_turn now) m = (take_hot_for_rest now m).0
after_call c (rescore_turn now) m = (take_hot_for_rescore now m).0
after_call c (super_turn now) m = (take_super now m).0
after_call c (day_start now) m = (begin_day_validation c now m).0
after_call c (day_tick now) m = (maybe_finish_day_validation now m).0
after_call c super_turns m = (take_super_batch c m).0
after_call c (rest_started symbol) m = note_hot_rest_started symbol m
after_call c (rest_released symbol) m = release_hot_rest symbol m
after_call c (backtest_pending now symbol p) m = note_hot_backtest_pending c now symbol p m
after_call c (backtest_refused now symbol reason) m = on_backtest_failed c now symbol reason m
after_call c (backtest_accepted symbol) m = (on_backtest_passed symbol m).0
after_call c (hot_scores now symbol scores) m = (apply_hot_scores c now symbol scores m).0
after_call c (filled symbol) m = note_filled symbol m
after_call c (demoted symbol) m = demote_super_to_normal symbol m
after_call c (dropped symbol) m = drop_super symbol m

unfoldable pub after_calls : Config → List Call → TierFunnel → TierFunnel
unfolding after_call
after_calls c [] m = m
after_calls c (call ∷ calls) m = after_calls c calls (after_call c call m)
