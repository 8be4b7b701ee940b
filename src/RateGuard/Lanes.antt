-- ===== src/RateGuard/Lanes.antt =====
-- The order in which the lanes yield as the used weight grows.
use binance_future_bot.Base.{ℕ, ◌+◌, ◌≤◌, ◌<◌, ◌≡◌, true, arith, max}
use binance_future_bot.Settings.{Settings}
use binance_future_bot.RateGuard.Types.{RestComponent, order, hot, normal, component_budget}
use binance_future_bot.RateGuard.Tracker.{Snapshot}
use binance_future_bot.RateGuard.Calls.{allows_on, lane_weight}

-- Orders go before the hot lane, and the hot lane before the normal one.
abbrev pub rank : RestComponent → ℕ
rank order = 2
rank hot = 1
rank normal = 0

-- Whenever a lane is allowed a weight, so is every lane of higher rank that has room for it in its
-- own budget: a higher lane is refused only for its own budget while a lower one goes on.
allows_on_mono :
    (s : Settings) (lower higher : RestComponent) (w : ℕ) (snap : Snapshot)
    → rank lower < rank higher
    → allows_on s lower w snap ≡ true
    → lane_weight higher snap + max w 1 ≤ component_budget s higher
    → allows_on s higher w snap ≡ true
unfolding allows_on
allows_on_mono s normal hot w snap lt h room = ground arith
allows_on_mono s normal order w snap lt h room = ground arith
allows_on_mono s hot order w snap lt h room = ground arith
allows_on_mono s lower higher w snap lt h room = absurd (grind arith)
