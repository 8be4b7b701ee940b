-- ===== src/MinuteClock.antt =====
-- core/minute_clock.py: the scan fires once in each UTC minute, after an offset. Times are
-- readings of `time.time()` in milliseconds.
pub mod Due
use binance_future_bot.Base.{
  ℕ, ◌+◌, ◌-◌, ◌/◌, ◌%◌, Bool, true, false, not, Option, none, some, min, ltb, ◌==◌, if◌then◌else◌,
}

pub record MinuteScanClock : Type 0 where
  pub offset : ℕ
  pub enabled : Bool
  pub last_minute : Option ℕ

-- A negative offset is clamped to 0 by the constructor, as every natural number is.
unfoldable pub new_clock : ℕ → Bool → MinuteScanClock
new_clock offset enabled = record {
  offset = min offset 59000;
  enabled = enabled;
  last_minute = none;
}

-- `self._last_minute_id == minute_id`
abbrev pub is_last : Option ℕ → ℕ → Bool
is_last none minute = false
is_last (some last) minute = last == minute

unfoldable pub due : MinuteScanClock → ℕ → MinuteScanClock × Bool
due c now =
    if not c.enabled
    then (c, true)
    else if ltb (now % 60000) c.offset
    then (c, false)
    else if is_last c.last_minute (now / 60000)
    then (c, false)
    else (record c { last_minute = some (now / 60000) }, true)

unfoldable pub until_due : MinuteScanClock → ℕ → ℕ
until_due c now =
    let sec = now % 60000 in
    if not c.enabled
    then 0
    else if ltb sec c.offset
    then c.offset - sec
    else if not (is_last c.last_minute (now / 60000))
    then 0
    else 60000 - sec + c.offset

unfoldable pub skip_current_minute : MinuteScanClock → ℕ → MinuteScanClock
skip_current_minute c now = record c { last_minute = some (now / 60000) }
