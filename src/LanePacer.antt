-- ===== src/LanePacer.antt =====
-- rest_rate_guard.py, `ComponentRestPacer`: a minimal gap between the REST calls of a lane. Times are
-- milliseconds; a start at 0 stands for none, as in the source.
pub mod Gaps
use binance_future_bot.Base.{ℕ, ◌+◌, ◌-◌, Bool, true, false, ◌&&◌, max, ltb, if◌then◌else◌}
use binance_future_bot.RateGuard.Types.{RestComponent, order, hot, normal, rest_pace}
use binance_future_bot.Settings.{Settings}

-- The dict from lanes to their last starts.
pub record ComponentRestPacer : Type 0 where
  pub last_order : ℕ
  pub last_hot : ℕ
  pub last_normal : ℕ

abbrev pub new_pacer : ComponentRestPacer
new_pacer = record { last_order = 0; last_hot = 0; last_normal = 0 }

unfoldable pub last_at : RestComponent → ComponentRestPacer → ℕ
last_at order p = p.last_order
last_at hot p = p.last_hot
last_at normal p = p.last_normal

unfoldable pub set_last : RestComponent → ℕ → ComponentRestPacer → ComponentRestPacer
set_last order start p = record p { last_order = start }
set_last hot start p = record p { last_hot = start }
set_last normal start p = record p { last_normal = start }

-- The start that `wait` reserves; it sleeps until then.
unfoldable pub start_of : Settings → ℕ → RestComponent → ComponentRestPacer → ℕ
unfolding last_at
start_of s now component p =
    let last = last_at component p in
    max now (if ltb 0 last then last + rest_pace s component else now)

unfoldable pub wait : Settings → ℕ → RestComponent → ComponentRestPacer → ComponentRestPacer × ℕ
unfolding start_of set_last
wait s now component p =
    let start = start_of s now component p in (set_last component start p, start - now)

unfoldable pub try_consume :
    Settings → ℕ → RestComponent → ComponentRestPacer → ComponentRestPacer × Bool
unfolding last_at set_last
try_consume s now component p =
    let last = last_at component p in
    if ltb 0 last && ltb now (last + rest_pace s component)
    then (p, false)
    else (set_last component now p, true)
