-- ===== src/EntryMutex.antt =====
-- core/entry_in_flight_mutex.py and core/trade_close_mutex.py: the locks by symbol and by trade, the
-- in-flight claims, and the bodies that run under them. Times are milliseconds. A blocking call that
-- finds its lock taken waits, so it takes no step.
pub mod Steps
pub mod Exclusion
use binance_future_bot.Base.{
  ℕ, ◌-◌, Bool, true, false, ◌||◌, not, Option, none, some, List, [], ◌∷◌, ◌++◌, ltb, max,
  if◌then◌else◌, mem, filter, ◌=?◌, text_eq,
}
use binance_future_bot.Base.Text.{Text, upper}
use binance_future_bot.Base.Dict.{Dict, lookup, insert, delete, keys}
use binance_future_bot.Settings.{Settings}

-- What the `with` statement yields: `unlocked` is the True of an empty name, `claimed` a True under
-- the lock, `held` a False under the lock, `busy` the False of a lock that was taken.
pub data Entered : Type 0 where
  unlocked claimed held busy : Entered

-- `bodies` are the `with` bodies that run under a lock, with whether they claimed the symbol.
pub record World : Type 0 where
  pub locked : List Text
  pub active : Dict Text ℕ
  pub bodies : Dict Text Bool

abbrev pub start : World
start = record { locked = []; active = []; bodies = [] }

unfoldable pub ttl : Settings → ℕ
ttl s = max s.entry_in_flight_ttl 1000

unfoldable pub clear_entry_in_flight : Text → World → World
clear_entry_in_flight symbol w = record w { active = delete (upper symbol) w.active }

abbrev pub is_stale : Settings → ℕ → ℕ → Bool
is_stale s now started = ltb (ttl s) (now - started)

unfoldable pub is_symbol_entry_in_flight : Settings → ℕ → Text → World → World × Bool
is_symbol_entry_in_flight s now symbol w = elim (lookup (upper symbol) w.active) [
  | none ↦ (w, false)
  | some started ↦
      if is_stale s now started
      then (record w { active = delete (upper symbol) w.active }, false)
      else (w, true)
]

unfoldable pub purge_stale : Settings → ℕ → Text → Dict Text ℕ → Dict Text ℕ
purge_stale s now sym active = elim (lookup sym active) [
  | none ↦ active
  | some started ↦ if is_stale s now started then delete sym active else active
]

-- The part of `entry_in_flight_mutex` before the body, for a symbol in upper case.
unfoldable pub enter_named : Settings → ℕ → Text → World → World × Entered
unfolding purge_stale
enter_named s now [] w = (w, unlocked)
enter_named s now (c ∷ rest) w =
    let name = c ∷ rest in
    let active' = purge_stale s now name w.active in
    if mem name w.locked
    then (w, busy)
    else if mem name (keys active')
    then (
      record { locked = name ∷ w.locked; active = active'; bodies = (name, false) ∷ w.bodies },
      held,
    )
    else (
      record {
        locked = name ∷ w.locked;
        active = insert name now active';
        bodies = (name, true) ∷ w.bodies;
      },
      claimed,
    )

unfoldable pub enter : Settings → ℕ → Text → World → World × Entered
unfolding enter_named
enter s now symbol w = enter_named s now (upper symbol) w

-- `lock.release()`
abbrev pub release : Text → List Text → List Text
release sym locked = filter (λ s. not (s =? sym)) locked

-- The `finally` of a body that holds the lock of `sym`; without such a body, nothing.
unfoldable pub leave : Text → World → World
leave sym w = elim (lookup sym w.bodies) [
  | none ↦ w
  | some mine ↦ record {
    locked = release sym w.locked;
    active = if mine then delete sym w.active else w.active;
    bodies = delete sym w.bodies;
  }
]

-- `trade_close_mutex`, on the trade's id without spaces around it.
unfoldable pub enter_close : Text → World → World × Entered
enter_close [] w = (w, unlocked)
enter_close (c ∷ id) w =
    if mem (c ∷ id) w.locked
    then (w, busy)
    else (record w { locked = (c ∷ id) ∷ w.locked; bodies = (c ∷ id, false) ∷ w.bodies }, claimed)
