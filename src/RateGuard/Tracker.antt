-- ===== src/RateGuard/Tracker.antt =====
-- rest_rate_guard.py: `RestUsageTracker`. Each call reads the clock once, as `now`; the readings
-- that one call makes within its locked section are taken as equal. The 85% and 55% of the request
-- limit are taken exactly, where the program rounds a float.
use binance_future_bot.Base.{
  ℕ, ◌-◌, ◌*◌, ◌/◌, Bool, ◌&&◌, ◌||◌, List, [], max, ltb, leb, ◌==◌, length, if◌then◌else◌,
}
use binance_future_bot.Base.Window.{drop_while, total}
use binance_future_bot.Settings.{Settings, rest_ip_request_limit}
use binance_future_bot.RateGuard.Types.{
  ApiHealthState, healthy, high_usage, rate_limit_warning, RestComponent, order, hot, normal,
  same_component, is_halted, weight_thresholds, ErrorCode, Reason, no_reason, at_hard_cap,
  normal_throttled, many_requests,
}

-- One reservation: its time, weight and lane.
pub record Entry : Type 0 where
  pub at : ℕ
  pub weight : ℕ
  pub component : RestComponent

abbrev pub entry_at : Entry → ℕ
entry_at e = e.at

abbrev pub entry_weight : Entry → ℕ
entry_weight e = e.weight

-- The weight that an entry puts on one lane.
abbrev pub weight_on : RestComponent → Entry → ℕ
weight_on c e = if same_component e.component c then e.weight else 0

pub record RestUsageTracker : Type 0 where
  pub window : List ℕ
  pub used_weight : ℕ
  pub used_weight_updated : ℕ
  pub throttle_until : ℕ
  pub last_http_status : ℕ
  pub last_error_code : ErrorCode
  pub safety_until : ℕ
  pub state : ApiHealthState
  pub reason : Reason
  pub retry_after : ℕ
  pub logged_state : ApiHealthState
  pub local_window : List Entry

unfoldable pub new_tracker : RestUsageTracker
new_tracker = record {
  window = [];
  used_weight = 0;
  used_weight_updated = 0;
  throttle_until = 0;
  last_http_status = 0;
  last_error_code = ErrorCode.status 0;
  safety_until = 0;
  state = healthy;
  reason = no_reason;
  retry_after = 0;
  logged_state = healthy;
  local_window = [];
}

unfoldable pub decay_used_weight : ℕ → RestUsageTracker → RestUsageTracker
decay_used_weight now t =
    if t.used_weight_updated == 0
    then t
    else if leb 60000 (now - t.used_weight_updated)
    then record t { used_weight = 0; used_weight_updated = 0 }
    else t

abbrev pub is_old : ℕ → Entry → Bool
is_old now e = ltb e.at (now - 60000)

unfoldable pub purge_local_weight : ℕ → RestUsageTracker → RestUsageTracker
purge_local_weight now t = record t { local_window = drop_while (is_old now) t.local_window }

abbrev pub is_old_request : ℕ → ℕ → Bool
is_old_request now at = ltb at (now - 60000)

unfoldable pub purge : ℕ → RestUsageTracker → RestUsageTracker
unfolding decay_used_weight purge_local_weight
purge now t =
    purge_local_weight now
      (decay_used_weight now (record t { window = drop_while (is_old_request now) t.window }))

unfoldable pub local_weight_sum : RestUsageTracker → ℕ
local_weight_sum t = total entry_at entry_weight t.local_window

unfoldable pub component_sum : RestComponent → RestUsageTracker → ℕ
component_sum c t = total entry_at (weight_on c) t.local_window

unfoldable pub projected : RestUsageTracker → ℕ
unfolding local_weight_sum
projected t = max t.used_weight (local_weight_sum t)

-- `_log_state_locked`: the log line itself is not modelled.
unfoldable pub log_state : RestUsageTracker → RestUsageTracker
log_state t = record t { logged_state = t.state }

abbrev enter : ApiHealthState → Reason → RestUsageTracker → RestUsageTracker
enter state reason t = record t { state = state; reason = reason; logged_state = state }

-- The ladder of `_effective_state_locked` below its halted case.
unfoldable pub settle : Settings → ℕ → ℕ → RestUsageTracker → RestUsageTracker
unfolding weight_thresholds projected log_state
settle s now remaining t =
    let ip_limit = max (rest_ip_request_limit s) 1 in
    let count = length t.window in
    let h = weight_thresholds s in
    let used = projected t in
    let paused = t.throttle_until - now in
    if leb h.hard used || leb h.limit used
    then enter rate_limit_warning (at_hard_cap used h.hard paused) t
    else if leb h.throttle used
    then enter high_usage (normal_throttled used h.throttle h.hard) t
    else if leb (ip_limit * 85 / 100) count
    then enter rate_limit_warning (many_requests count ip_limit) t
    else if leb (ip_limit * 55 / 100) count
    then enter high_usage (many_requests count ip_limit) t
    else enter healthy (if remaining == 0 && paused == 0 then no_reason else t.reason) t

unfoldable pub effective_state : Settings → ℕ → ℕ → RestUsageTracker → RestUsageTracker
unfolding log_state settle decay_used_weight purge_local_weight
effective_state s now remaining t =
    let decayed = decay_used_weight now t in
    if ltb 0 remaining && is_halted decayed.state
    then log_state decayed
    else settle s now remaining (purge_local_weight now decayed)

-- What the callers of `snapshot` read of it.
pub record Snapshot : Type 0 where
  pub state : ApiHealthState
  pub requests : ℕ
  pub used_weight : ℕ
  pub weight_order : ℕ
  pub weight_hot : ℕ
  pub weight_normal : ℕ
  pub throttle_remaining : ℕ
  pub safety_remaining : ℕ

unfoldable pub snapshot : Settings → ℕ → RestUsageTracker → RestUsageTracker × Snapshot
unfolding purge effective_state component_sum projected
snapshot s now t =
    let purged = purge_local_weight now (decay_used_weight now (purge now t)) in
    let remaining = purged.safety_until - now in
    let settled = effective_state s now remaining purged in
    (
      settled,
      record {
        state = settled.state;
        requests = length settled.window;
        used_weight = projected settled;
        weight_order = component_sum order settled;
        weight_hot = component_sum hot settled;
        weight_normal = component_sum normal settled;
        throttle_remaining = settled.throttle_until - now;
        safety_remaining = remaining;
      },
    )
