-- ===== src/Tests/Pacing.antt =====
-- The per-minute governors at concrete settings and times.
use binance_future_bot.Base.{
  ℕ, ◌+◌, ◌≤◌, ◌<◌, ◌≡◌, refl, true, false, some, List, [], ◌∷◌, arith, Distinct, nat_eq,
}
use binance_future_bot.Settings.{Settings, rest_budget_normal_weight, rest_hard_weight_cap}
use binance_future_bot.Governor.{new_governor, limit_of, allow_entry_order}
use binance_future_bot.Governor.Rate.{granted, granted_in_minute, granted_in_minute-le}
use binance_future_bot.MinuteClock.{MinuteScanClock, new_clock, due, until_due}
use binance_future_bot.MinuteClock.Due.{fired, fired-Distinct, until_due_exact}
use binance_future_bot.RestBudget.{
  execution, background, answered, acquire_step, RestBudgetManager, new_manager, window_of, cap_for,
  purge_old, weight_sum, try_acquire, has_budget_for, check_lane, append_to,
}
use binance_future_bot.RestBudget.Caps.{Request, acquired, weight_in_minute, acquired-le-cap}
use binance_future_bot.RestBudget.Race.{
  Threads, interleave, both_test_first, both_start, try_acquire-exceeds,
}

-- The defaults of config.py, in milliseconds.
abbrev pub defaults : Settings
defaults = record {
  max_positions = 12;
  max_order_requests = 12;
  used_weight_limit = 2400;
  hard_weight_cap = 1500;
  soft_weight_ceiling = 1350;
  priority_throttle_total = 1200;
  budget_order_weight = 400;
  budget_hot_weight = 600;
  budget_normal_weight = 400;
  pace_order = 1000;
  pace_hot = 3000;
  pace_normal = 2000;
  use_testnet = true;
  ip_request_limit_testnet = 6000;
  ip_request_limit_mainnet = 2400;
  weight_throttle_pause = 12000;
  weight_over_limit_pause = 60000;
  rate_limit_halt = 900000;
  ip_ban_halt = 900000;
  entry_in_flight_ttl = 20000;
}

-- With a limit of two, the third request of a minute is deferred, and a later one is allowed.
two_a_minute :
    granted defaults (new_governor (some 2)) (1000 ∷ 2000 ∷ 3000 ∷ 61000 ∷ [])
    ≡ 1000 ∷ 2000 ∷ 61000 ∷ []
unfolding granted allow_entry_order limit_of new_governor
two_a_minute = refl

granted_in_minute-le_example :
    granted_in_minute 1000
      (granted defaults (new_governor (some 2)) (1000 ∷ 2000 ∷ 3000 ∷ 61000 ∷ []))
    ≤ limit_of defaults (new_governor (some 2))
granted_in_minute-le_example =
    granted_in_minute-le defaults (some 2) (1000 ∷ 2000 ∷ 3000 ∷ 61000 ∷ []) 1000 (omega arith)

fired-Distinct_example : Distinct (fired (new_clock 1000 true) (500 ∷ 1500 ∷ 2500 ∷ 61500 ∷ []))
fired-Distinct_example = fired-Distinct 1000 (500 ∷ 1500 ∷ 2500 ∷ 61500 ∷ []) (omega arith)

abbrev asked : MinuteScanClock
asked = record { offset = 1000; enabled = true; last_minute = some 0 }

until_due_exact_example :
    ((due asked (2500 + until_due asked 2500)).1 ≡ true)
    × ((t : ℕ) → 2500 ≤ t → t < 2500 + until_due asked 2500 → (due asked t).1 ≡ false)
until_due_exact_example = until_due_exact asked 2500 refl (omega arith) (λ _. omega arith)

abbrev requests : List Request
requests =
    record { now = 1000; delay = 5; weight = 300; lane = background }
    ∷ record { now = 2000; delay = 0; weight = 200; lane = background }
    ∷ record { now = 2500; delay = 0; weight = 50; lane = execution }
    ∷ record { now = 3000; delay = 0; weight = 100; lane = background }
    ∷ []

three_requests :
    acquired defaults background (new_manager defaults 0) requests ≡ (1005, 300) ∷ (3000, 100) ∷ []
unfolding acquired try_acquire acquire_step has_budget_for check_lane purge_old window_of append_to
    cap_for new_manager rest_budget_normal_weight rest_hard_weight_cap
three_requests = refl

acquired-le-cap_example :
    weight_in_minute 1000 (acquired defaults background (new_manager defaults 0) requests)
    ≤ cap_for defaults background
acquired-le-cap_example =
    acquired-le-cap defaults background 0 requests 1000 (λ e. cc) (omega arith)

abbrev nearly_full : RestBudgetManager
nearly_full = record {
  max_per_minute = 1500;
  execution_window = [];
  background_window = (1000, 250) ∷ [];
  bootstrap_window = [];
}

-- Two threads, each with a weight of 100, in the 400 of the background lane.
abbrev two_threads : Threads
two_threads =
    interleave defaults 100 background (both_test_first 2000 2005 2010) (both_start nearly_full)

try_acquire-exceeds_example :
    (two_threads.first ≡ answered true)
    × (two_threads.second ≡ answered true)
    × (cap_for defaults background < weight_sum (window_of background two_threads.budget))
unfolding cap_for window_of purge_old rest_budget_normal_weight
try_acquire-exceeds_example =
    try_acquire-exceeds defaults 2000 2005 2010 100 background nearly_full (λ e. cc) (omega arith)
      (omega arith)
