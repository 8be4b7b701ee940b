-- ===== src/EntryMutex/Steps.antt =====
-- The interleavings of core/entry_in_flight_mutex.py: any number of threads enter, leave, clear and
-- ask, in any order and at any time.
use binance_future_bot.Base.{ℕ}
use binance_future_bot.Base.Text.{Text}
use binance_future_bot.Settings.{Settings}
use binance_future_bot.EntryMutex.{
  World, start, enter, leave, clear_entry_in_flight, is_symbol_entry_in_flight,
}

pub data Reach (s : Settings) : World → Type 0 where
  begin : Reach s start
  by_enter : {w : World} (now : ℕ) (symbol : Text) → Reach s w → Reach s (enter s now symbol w).0
  by_leave : {w : World} (sym : Text) → Reach s w → Reach s (leave sym w)
  by_clear : {w : World} (symbol : Text) → Reach s w → Reach s (clear_entry_in_flight symbol w)
  by_ask :
      {w : World} (now : ℕ) (symbol : Text)
      → Reach s w
      → Reach s (is_symbol_entry_in_flight s now symbol w).0
