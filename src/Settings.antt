-- ===== src/Settings.antt =====
-- config.py: the settings that the modelled components read, and the accessors that clamp them.
-- Whole numbers come from the environment and may be negative there; every accessor clamps below
-- by at least 0, so a negative value acts as 0 does. Seconds are kept in milliseconds.
use binance_future_bot.Base.{ℕ, Bool, min, max, leb, if◌then◌else◌}

pub record Settings : Type 0 where
  pub max_positions : ℕ
  pub max_order_requests : ℕ
  pub used_weight_limit : ℕ
  pub hard_weight_cap : ℕ
  pub soft_weight_ceiling : ℕ
  pub priority_throttle_total : ℕ
  pub budget_order_weight : ℕ
  pub budget_hot_weight : ℕ
  pub budget_normal_weight : ℕ
  pub pace_order : ℕ
  pub pace_hot : ℕ
  pub pace_normal : ℕ
  pub use_testnet : Bool
  pub ip_request_limit_testnet : ℕ
  pub ip_request_limit_mainnet : ℕ
  pub weight_throttle_pause : ℕ
  pub weight_over_limit_pause : ℕ
  pub rate_limit_halt : ℕ
  pub ip_ban_halt : ℕ
  pub entry_in_flight_ttl : ℕ

unfoldable pub max_entry_orders_per_minute : Settings → ℕ
max_entry_orders_per_minute s =
    let book = max s.max_positions 1 in
    let raw = if leb s.max_order_requests 4 then book else s.max_order_requests in
    min (max raw 1) book

unfoldable pub rest_ip_request_limit : Settings → ℕ
rest_ip_request_limit s =
    if s.use_testnet then max s.ip_request_limit_testnet 1 else max s.ip_request_limit_mainnet 1

unfoldable pub rest_used_weight_limit : Settings → ℕ
rest_used_weight_limit s = max s.used_weight_limit 1

unfoldable pub rest_hard_weight_cap : Settings → ℕ
unfolding rest_used_weight_limit
rest_hard_weight_cap s = min (min (max s.hard_weight_cap 1) 1500) (rest_used_weight_limit s)

unfoldable pub rest_soft_weight_ceiling : Settings → ℕ
unfolding rest_hard_weight_cap
rest_soft_weight_ceiling s = min (max s.soft_weight_ceiling 1) (rest_hard_weight_cap s)

unfoldable pub rest_weight_throttle_threshold : Settings → ℕ
unfolding rest_hard_weight_cap
rest_weight_throttle_threshold s =
    min (min (max s.priority_throttle_total 1) (rest_hard_weight_cap s)) (rest_used_weight_limit s)

unfoldable pub rest_budget_order_weight : Settings → ℕ
rest_budget_order_weight s = min (max s.budget_order_weight 1) 400

unfoldable pub rest_budget_hot_weight : Settings → ℕ
rest_budget_hot_weight s = min (max s.budget_hot_weight 1) 600

unfoldable pub rest_budget_normal_weight : Settings → ℕ
rest_budget_normal_weight s = min (max s.budget_normal_weight 1) 400

unfoldable pub rest_pace_order : Settings → ℕ
rest_pace_order s = min (max s.pace_order 500) 2000

unfoldable pub rest_pace_hot : Settings → ℕ
rest_pace_hot s = min (max s.pace_hot 2000) 5000

unfoldable pub rest_pace_normal : Settings → ℕ
rest_pace_normal s = min (max s.pace_normal 1000) 5000

unfoldable pub rate_limit_scanner_halt : Settings → ℕ
rate_limit_scanner_halt s = max s.rate_limit_halt 900000
