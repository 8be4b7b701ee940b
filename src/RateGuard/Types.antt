-- ===== src/RateGuard/Types.antt =====
-- rest_rate_guard.py: endpoint weights, lanes, health states and the thresholds of the guard.
-- Times are milliseconds.
use binance_future_bot.Base.{
  ℕ, Bool, true, false, ◌||◌, Option, none, some, max, ltb, leb, if◌then◌else◌,
}
use binance_future_bot.Base.Text.{Text}
use binance_future_bot.Settings.{
  Settings, rest_budget_order_weight, rest_budget_hot_weight, rest_budget_normal_weight,
  rest_hard_weight_cap, rest_used_weight_limit, rest_weight_throttle_threshold, rest_pace_order,
  rest_pace_hot, rest_pace_normal,
}

pub data ApiHealthState : Type 0 where
  healthy high_usage rate_limit_warning api_rate_limited ip_banned : ApiHealthState

pub data RestComponent : Type 0 where
  order hot normal : RestComponent

abbrev pub same_component : RestComponent → RestComponent → Bool
same_component order order = true
same_component hot hot = true
same_component normal normal = true
same_component _ _ = false

-- The two states in which the address is halted.
unfoldable pub is_halted : ApiHealthState → Bool
is_halted api_rate_limited = true
is_halted ip_banned = true
is_halted _ = false

unfoldable pub rest_pace : Settings → RestComponent → ℕ
rest_pace s order = rest_pace_order s
rest_pace s hot = rest_pace_hot s
rest_pace s normal = rest_pace_normal s

unfoldable pub component_budget : Settings → RestComponent → ℕ
component_budget s order = rest_budget_order_weight s
component_budget s hot = rest_budget_hot_weight s
component_budget s normal = rest_budget_normal_weight s

pub record Thresholds : Type 0 where
  pub throttle : ℕ
  pub hard : ℕ
  pub limit : ℕ

unfoldable pub weight_thresholds : Settings → Thresholds
weight_thresholds s = record {
  throttle = rest_weight_throttle_threshold s;
  hard = rest_hard_weight_cap s;
  limit = rest_used_weight_limit s;
}

unfoldable pub weight_pause : Settings → ℕ → ℕ
unfolding weight_thresholds
weight_pause s used_weight =
    let t = weight_thresholds s in
    if leb t.limit used_weight || leb t.hard used_weight
    then max s.weight_over_limit_pause 45000
    else if leb t.throttle used_weight
    then max s.weight_throttle_pause 5000
    else 0

-- An error code of the program: `status n` is n, and `api n` is the negative code -n of Binance.
pub data ErrorCode : Type 0 where
  status api : ℕ → ErrorCode

-- The reasons that the guard shows, each with the values of its message.
pub data Reason : Type 0 where
  no_reason : Reason
  at_limit : ℕ → ℕ → ℕ → Reason
  near_cap : ℕ → ℕ → ℕ → Reason
  over_throttle : ℕ → ℕ → ℕ → Reason
  ip_banned_by : ℕ → Reason
  too_many_requests : ℕ → Reason
  transport_error : Text → Reason
  binance_error : ErrorCode → Text → Reason
  cleared : Text → Reason
  at_hard_cap : ℕ → ℕ → ℕ → Reason
  normal_throttled : ℕ → ℕ → ℕ → Reason
  many_requests : ℕ → ℕ → Reason

-- A REST call as `weight_for_call` sees it: the client method's name, and the arguments it reads.
pub data RestCall : Type 0 where
  -- `futures_ticker`, and whether a symbol is given
  ticker : Bool → RestCall
  -- `futures_klines`; no limit stands for a missing, zero or unreadable one
  klines : Option ℕ → RestCall
  income_history : RestCall
  orderbook_ticker : RestCall
  -- `futures_account`, `futures_position_information`, `futures_account_balance`,
  -- `futures_account_trades`
  account_read : RestCall
  -- the other endpoints of the table, all of weight 1
  light : RestCall
  -- a name that the table does not have, with the caller's default
  unknown : ℕ → RestCall

klines_weight : ℕ → ℕ
klines_weight limit =
    if ltb limit 100 then 1 else if ltb limit 500 then 2 else if leb limit 1000 then 5 else 10

unfoldable pub weight_for_call : RestCall → ℕ
unfolding klines_weight
weight_for_call (ticker true) = 1
weight_for_call (ticker false) = 40
weight_for_call (klines none) = klines_weight 500
weight_for_call (klines (some limit)) = klines_weight limit
weight_for_call income_history = 30
weight_for_call orderbook_ticker = 2
weight_for_call account_read = 5
weight_for_call light = 1
weight_for_call (unknown default) = default
