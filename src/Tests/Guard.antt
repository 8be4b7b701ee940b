-- ===== src/Tests/Guard.antt =====
-- The REST guard at concrete settings, responses and times.
use binance_future_bot.Base.{
  ℕ, ◌+◌, ◌-◌, ◌≤◌, ◌≡◌, refl, inr, true, false, some, List, [], ◌∷◌, arith, max,
}
use binance_future_bot.Tests.Pacing.{defaults}
use binance_future_bot.RateGuard.Types.{
  order, hot, normal, component_budget, is_halted, ErrorCode, weight_for_call, klines, ticker,
}
use binance_future_bot.Settings.{
  rest_hard_weight_cap, rest_soft_weight_ceiling, rest_weight_throttle_threshold,
  rest_used_weight_limit, rest_budget_hot_weight, rest_budget_normal_weight,
  rest_budget_order_weight,
}
use binance_future_bot.RateGuard.Tracker.{
  new_tracker, decay_used_weight, purge_local_weight, projected, component_sum,
}
use binance_future_bot.RateGuard.Calls.{
  HttpResponse, allows_on, allows_component_rest, allows_new_entries, in_safety_mode, try_reserve,
  note_http_response, has_room,
}
use binance_future_bot.RateGuard.Runs.{Call, allows, reserve, failed, log, run, serve, recorded}
use binance_future_bot.RateGuard.Halt.{halted_for_15_minutes}
use binance_future_bot.RateGuard.Reserve.{
  ceiling, lane_in_minute, total_in_minute, lane_in_minute-le, total_in_minute-le,
  reserve-le-ceiling,
}

-- All that a run of the guard computes with.
program : Unit {0}
unfolding log run recorded serve try_reserve has_room decay_used_weight purge_local_weight projected
    component_sum new_tracker component_budget rest_hard_weight_cap rest_soft_weight_ceiling
    rest_weight_throttle_threshold rest_used_weight_limit rest_budget_hot_weight
    rest_budget_normal_weight rest_budget_order_weight allows_on is_halted
program = tt

weights : (weight_for_call (klines (some 1500)) ≡ 10) × (weight_for_call (ticker false) ≡ 40)
unfolding weight_for_call
weights = (refl, refl)

abbrev too_many : HttpResponse
too_many = record { status = 429; used_weight = 1300; retry_after = 10000 }

abbrev meanwhile : List (ℕ × Call)
meanwhile = (2000, failed (ErrorCode.api 1003) [] 5000 false) ∷ (600000, allows hot 5) ∷ []

halted_for_15_minutes_example :
    ((allows_component_rest defaults 890000 order 1
        (run defaults meanwhile (note_http_response defaults 1000 too_many new_tracker))).1
      ≡ false)
    × ((allows_new_entries defaults 890000
          (run defaults meanwhile (note_http_response defaults 1000 too_many new_tracker))).1
        ≡ false)
    × ((in_safety_mode defaults 890000
          (run defaults meanwhile (note_http_response defaults 1000 too_many new_tracker))).1
        ≡ true)
halted_for_15_minutes_example =
    halted_for_15_minutes defaults 1000 too_many new_tracker meanwhile 890000 1 order (inr refl)
      ((omega arith, refl), ((omega arith, refl), tt)) (omega arith)

abbrev calls : List (ℕ × Call)
calls = (1000, reserve hot 500) ∷ (2000, reserve hot 200) ∷ (3000, reserve normal 40) ∷ []

-- The second reservation would pass the budget of the hot lane.
logged :
    log defaults calls new_tracker
    ≡ record { at = 1000; weight = 500; component = hot }
      ∷ record { at = 3000; weight = 40; component = normal }
      ∷ []
unfolding program
logged = refl

lane_in_minute-le_example :
    lane_in_minute hot 500 (log defaults calls new_tracker) ≤ component_budget defaults hot
lane_in_minute-le_example = lane_in_minute-le defaults hot calls 4000 500 (λ e. cc) (omega arith)

total_in_minute-le_example :
    total_in_minute 500 (log defaults calls new_tracker) ≤ rest_hard_weight_cap defaults
total_in_minute-le_example =
    total_in_minute-le defaults calls 4000 500 (refl, (refl, (refl, tt))) (omega arith)

reserve-le-ceiling_example :
    total_in_minute (4000 - 60000) (log defaults calls new_tracker) + max 60 1
    ≤ ceiling defaults hot
unfolding program
reserve-le-ceiling_example = reserve-le-ceiling defaults hot calls 4000 60 (omega arith) refl
