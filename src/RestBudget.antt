-- ===== src/RestBudget.antt =====
-- core/rest_budget.py: a sliding-window weight budget for each lane. Times are readings of
-- `time.monotonic()` in milliseconds.
pub mod Caps
pub mod Race
use binance_future_bot.Base.{
  ℕ, ◌+◌, ◌-◌, Bool, true, false, List, [], ◌∷◌, ◌++◌, max, ltb, leb, if◌then◌else◌,
}
use binance_future_bot.Base.Window.{drop_while, total}
use binance_future_bot.Settings.{
  Settings, rest_budget_order_weight, rest_budget_hot_weight, rest_budget_normal_weight,
  rest_hard_weight_cap,
}

pub data RestLane : Type 0 where
  execution background bootstrap : RestLane

-- An acquisition: its time and its weight.
abbrev pub Entry : Type 0
Entry = ℕ × ℕ

abbrev pub entry_time : Entry → ℕ
entry_time e = e.0

abbrev pub entry_weight : Entry → ℕ
entry_weight e = e.1

abbrev pub weight_sum : List Entry → ℕ
weight_sum = total entry_time entry_weight

pub record RestBudgetManager : Type 0 where
  pub max_per_minute : ℕ
  pub execution_window : List Entry
  pub background_window : List Entry
  pub bootstrap_window : List Entry

-- `max_weight_per_minute or Config.rest_hard_weight_cap()`: 0 stands for a missing argument too.
unfoldable pub new_manager : Settings → ℕ → RestBudgetManager
new_manager s max_weight = record {
  max_per_minute = max (if leb max_weight 0 then rest_hard_weight_cap s else max_weight) 1;
  execution_window = [];
  background_window = [];
  bootstrap_window = [];
}

unfoldable pub window_of : RestLane → RestBudgetManager → List Entry
window_of execution m = m.execution_window
window_of background m = m.background_window
window_of bootstrap m = m.bootstrap_window

unfoldable pub append_to : RestLane → Entry → RestBudgetManager → RestBudgetManager
append_to execution e m = record m { execution_window = m.execution_window ++ e ∷ [] }
append_to background e m = record m { background_window = m.background_window ++ e ∷ [] }
append_to bootstrap e m = record m { bootstrap_window = m.bootstrap_window ++ e ∷ [] }

unfoldable pub cap_for : Settings → RestLane → ℕ
cap_for s execution = rest_budget_order_weight s
cap_for s background = rest_budget_normal_weight s
cap_for s bootstrap = rest_budget_hot_weight s

-- `window[0][0] < cutoff`
abbrev pub is_old : ℕ → Entry → Bool
is_old now e = ltb e.0 (now - 60000)

unfoldable pub purge_old : ℕ → RestBudgetManager → RestBudgetManager
purge_old now m = record m {
  execution_window = drop_while (is_old now) m.execution_window;
  background_window = drop_while (is_old now) m.background_window;
  bootstrap_window = drop_while (is_old now) m.bootstrap_window;
}

unfoldable pub current_window_weight : ℕ → RestBudgetManager → RestBudgetManager × ℕ
current_window_weight now m =
    let m' = purge_old now m in
    (
      m',
      weight_sum m'.execution_window
          + weight_sum m'.background_window
          + weight_sum m'.bootstrap_window,
    )

-- The fraction, as its numerator and its denominator.
unfoldable pub remaining_fraction : ℕ → RestBudgetManager → RestBudgetManager × (ℕ × ℕ)
remaining_fraction now m =
    let (m', used) = current_window_weight now (purge_old now m) in
    let cap = max m'.max_per_minute 1 in (m', (cap - used, cap))

-- The test under the lock, for a lane that has a budget.
unfoldable pub check_lane :
    Settings → ℕ → ℕ → RestLane → RestBudgetManager → RestBudgetManager × Bool
check_lane s now weight lane m =
    let m' = purge_old now m in
    (m', leb (weight_sum (window_of lane m') + max weight 1) (cap_for s lane))

unfoldable pub has_budget_for :
    Settings → ℕ → ℕ → RestLane → RestBudgetManager → RestBudgetManager × Bool
unfolding check_lane
has_budget_for s now weight execution m = (m, true)
has_budget_for s now weight lane m = check_lane s now weight lane m

-- Where a call of `try_acquire` stands: before the test, between the test and the append, where it
-- does not hold the lock, and after its answer.
pub data Acquiring : Type 0 where
  starting : Acquiring
  appending : Acquiring
  answered : Bool → Acquiring

-- What the call does at `now` from where it stands, up to the next point without the lock.
unfoldable pub acquire_step :
    Settings → ℕ → ℕ → RestLane → Acquiring → RestBudgetManager → RestBudgetManager × Acquiring
acquire_step s now weight execution starting m = (m, answered true)
acquire_step s now weight lane starting m =
    let (m', room) = has_budget_for s now weight lane m in
    (m', if room then appending else answered false)
acquire_step s now weight lane appending m = (append_to lane (now, max weight 1) m, answered true)
acquire_step s now weight lane (answered granted) m = (m, answered granted)

abbrev pub is_granted : Acquiring → Bool
is_granted (answered granted) = granted
is_granted p = false

-- A call with nobody in between: the test at `now`, and the append at `later`.
unfoldable pub try_acquire :
    Settings → ℕ → ℕ → ℕ → RestLane → RestBudgetManager → RestBudgetManager × Bool
unfolding acquire_step
try_acquire s now later weight lane m =
    let (tested, place) = acquire_step s now weight lane starting m in
    let (after, last) = acquire_step s later weight lane place tested in (after, is_granted last)
