-- ===== src/RateGuard/Calls.antt =====
-- rest_rate_guard.py: the calls of `RestUsageTracker` that admit, record and clear.
use binance_future_bot.Base.{
  ℕ, ◌+◌, ◌-◌, Bool, true, false, not, ◌&&◌, ◌||◌, [], ◌∷◌, ◌++◌, max, ltb, leb, ◌==◌,
  if◌then◌else◌,
}
use binance_future_bot.Base.Text.{Text}
use binance_future_bot.Settings.{
  Settings, rest_hard_weight_cap, rest_soft_weight_ceiling, rest_weight_throttle_threshold,
  rate_limit_scanner_halt,
}
use binance_future_bot.RateGuard.Types.{
  ApiHealthState, healthy, rate_limit_warning, api_rate_limited, ip_banned, RestComponent, order,
  hot, normal, same_component, is_halted, component_budget, weight_thresholds, weight_pause,
  ErrorCode, at_limit, near_cap, over_throttle, ip_banned_by, too_many_requests, transport_error,
  binance_error, cleared,
}
use binance_future_bot.RateGuard.Tracker.{
  Entry, RestUsageTracker, decay_used_weight, purge_local_weight, purge, component_sum, projected,
  log_state, Snapshot, snapshot,
}

abbrev is_warning : ApiHealthState → Bool
is_warning rate_limit_warning = true
is_warning _ = false

abbrev pub lane_weight : RestComponent → Snapshot → ℕ
lane_weight order snap = snap.weight_order
lane_weight hot snap = snap.weight_hot
lane_weight normal snap = snap.weight_normal

-- The decision of `allows_component_rest` on a snapshot.
unfoldable pub allows_on : Settings → RestComponent → ℕ → Snapshot → Bool
allows_on s component weight snap =
    let used = snap.used_weight in
    let hard = rest_hard_weight_cap s in
    let soft = rest_soft_weight_ceiling s in
    let need = max weight 1 in
    if is_halted snap.state
    then false
    else if leb hard used || ltb hard (used + need)
    then false
    else if not (same_component component order) && (leb soft used || ltb soft (used + need))
    then false
    else if same_component component normal
        && (leb (rest_weight_throttle_threshold s) used || is_warning snap.state)
    then false
    else not (ltb (component_budget s component) (lane_weight component snap + need))

unfoldable pub allows_component_rest :
    Settings → ℕ → RestComponent → ℕ → RestUsageTracker → RestUsageTracker × Bool
allows_component_rest s now component weight t =
    let (t', snap) = snapshot s now t in (t', allows_on s component weight snap)

unfoldable pub allows_background_rest : Settings → ℕ → RestUsageTracker → RestUsageTracker × Bool
allows_background_rest s now t = allows_component_rest s now normal 1 t

unfoldable pub allows_hot_rest : Settings → ℕ → RestUsageTracker → RestUsageTracker × Bool
allows_hot_rest s now t = allows_component_rest s now hot 1 t

unfoldable pub projected_used_weight : ℕ → RestUsageTracker → RestUsageTracker × ℕ
projected_used_weight now t =
    let t' = purge_local_weight now (decay_used_weight now (purge now t)) in (t', projected t')

-- The test of `try_reserve`, once the windows are purged.
unfoldable pub has_room : Settings → RestComponent → ℕ → RestUsageTracker → Bool
has_room s component w t =
    let hard = rest_hard_weight_cap s in
    let soft = rest_soft_weight_ceiling s in
    let throttle = rest_weight_throttle_threshold s in
    let p = projected t in
    if leb hard p || ltb hard (p + w)
    then false
    else if not (same_component component order) && (leb soft p || ltb soft (p + w))
    then false
    else if same_component component normal && (leb throttle p || ltb throttle (p + w))
    then false
    else not (ltb (component_budget s component) (component_sum component t + w))

abbrev pub record_entry : Entry → RestUsageTracker → RestUsageTracker
record_entry e t = record t { local_window = t.local_window ++ e ∷ [] }

unfoldable pub try_reserve :
    Settings → ℕ → RestComponent → ℕ → RestUsageTracker → RestUsageTracker × Bool
try_reserve s now component weight t =
    let t' = purge_local_weight now (decay_used_weight now t) in
    let w = max weight 1 in
    if has_room s component w t'
    then (record_entry (record { at = now; weight = w; component = component }) t', true)
    else (t', false)

unfoldable pub note_outgoing_weight : ℕ → ℕ → RestUsageTracker → RestUsageTracker
note_outgoing_weight now weight t =
    record_entry (record { at = now; weight = max weight 1; component = order })
      (purge_local_weight now t)

unfoldable pub allows_new_entries : Settings → ℕ → RestUsageTracker → RestUsageTracker × Bool
allows_new_entries s now t =
    let (t', snap) = snapshot s now t in
    (t', not (is_halted snap.state) && ltb snap.used_weight (rest_hard_weight_cap s))

unfoldable pub in_safety_mode : Settings → ℕ → RestUsageTracker → RestUsageTracker × Bool
in_safety_mode s now t = let (t', snap) = snapshot s now t in (t', is_halted snap.state)

unfoldable pub safety_remaining : ℕ → RestUsageTracker → ℕ
safety_remaining now t = t.safety_until - now

unfoldable pub force_clear_safety : Text → RestUsageTracker → RestUsageTracker × Bool
unfolding log_state
force_clear_safety why t =
    if is_halted t.state || ltb 0 t.safety_until
    then (
      log_state (record t {
        safety_until = 0;
        retry_after = 0;
        last_error_code = ErrorCode.status 0;
        state = healthy;
        reason = cleared why;
      }),
      true,
    )
    else (t, false)

-- A response as `note_http_response` reads it; 0 stands for a missing or unreadable header.
pub record HttpResponse : Type 0 where
  pub status : ℕ
  pub used_weight : ℕ
  pub retry_after : ℕ

-- The used-weight header: a pause of the Normal lane, with its reason.
unfoldable pub note_used_weight : Settings → ℕ → ℕ → RestUsageTracker → RestUsageTracker
note_used_weight s now used t =
    let pause = weight_pause s used in
    let h = weight_thresholds s in
    let noted = record t { used_weight = used; used_weight_updated = now } in
    let why =
      if leb h.limit used
      then at_limit used h.limit pause
      else if leb h.hard used
      then near_cap used h.hard pause
      else over_throttle used h.throttle pause in
    if not (ltb 0 used)
    then t
    else if ltb 0 pause
    then record noted { throttle_until = max noted.throttle_until (now + pause); reason = why }
    else noted

unfoldable pub note_retry_after : ℕ → RestUsageTracker → RestUsageTracker
note_retry_after seconds t = if ltb 0 seconds then record t { retry_after = seconds } else t

-- How long a 429 or a 418 halts the address.
unfoldable pub halt_for : Settings → HttpResponse → ℕ
halt_for s r =
    let halt = max (max r.retry_after (rate_limit_scanner_halt s)) 900000 in
    if r.status == 418 then max (max halt s.ip_ban_halt) 900000 else halt

unfoldable pub note_status : Settings → ℕ → HttpResponse → RestUsageTracker → RestUsageTracker
note_status s now r t =
    if r.status == 418
    then record t {
      state = ip_banned;
      reason = ip_banned_by r.status;
      safety_until = max t.safety_until (now + halt_for s r);
    }
    else if r.status == 429
    then record t {
      state = api_rate_limited;
      reason = too_many_requests r.status;
      safety_until = max t.safety_until (now + halt_for s r);
    }
    else t

unfoldable pub note_http_response :
    Settings → ℕ → HttpResponse → RestUsageTracker → RestUsageTracker
note_http_response s now r t =
    let counted = record t { window = t.window ++ now ∷ []; last_http_status = r.status } in
    note_status s now r
      (note_retry_after r.retry_after (note_used_weight s now r.used_weight counted))

unfoldable pub note_transport_error : Text → RestUsageTracker → RestUsageTracker
note_transport_error why t = record t { reason = transport_error why }

is_ban_code : ErrorCode → Bool
is_ban_code (ErrorCode.status n) = n == 418
is_ban_code (ErrorCode.api n) = false

is_limit_code : ErrorCode → Bool
is_limit_code (ErrorCode.status n) = n == 429
is_limit_code (ErrorCode.api n) = n == 1003 || n == 1015

unfoldable pub note_binance_error :
    ℕ → ErrorCode → Text → ℕ → Bool → RestUsageTracker → RestUsageTracker
unfolding is_ban_code is_limit_code
note_binance_error now code message halt banned t =
    let noted = record t { last_error_code = code; reason = binance_error code message } in
    let halted =
      if ltb 0 halt
      then record noted { safety_until = max noted.safety_until (now + halt); retry_after = halt }
      else noted in
    if banned || is_ban_code code
    then record halted { state = ip_banned }
    else if is_limit_code code
    then record halted { state = api_rate_limited }
    else halted
