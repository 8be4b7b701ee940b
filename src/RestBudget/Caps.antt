-- ===== src/RestBudget/Caps.antt =====
-- What the budget of a lane bounds over any sequence of acquisitions by one thread.
use mathlib.Core.List.{append-nil, append_assoc}
use binance_future_bot.Base.{
  ℕ, ◌+◌, ◌≤◌, ◌≡◌, ◌≢◌, refl, Bool, true, false, List, [], ◌∷◌, ◌++◌, arith, max, ◌&&◌,
  if◌then◌else◌, leb→le, Bool-cases, inl, inr,
}
use binance_future_bot.Base.Window.{
  drop_while, within, Bounded, Splits, Splits-later, Splits-drop, Splits-append, Bounded-append,
}
use binance_future_bot.Settings.{Settings}
use binance_future_bot.RestBudget.{
  RestLane, execution, background, bootstrap, Entry, entry_time, entry_weight, weight_sum,
  RestBudgetManager, new_manager, window_of, append_to, cap_for, is_old, purge_old, check_lane,
  has_budget_for, acquire_step, try_acquire,
}

-- One call of `try_acquire`: the time of its test, how much later it appends, and its arguments.
pub record Request : Type 0 where
  pub now : ℕ
  pub delay : ℕ
  pub weight : ℕ
  pub lane : RestLane

abbrev pub later_of : Request → ℕ
later_of r = r.now + r.delay

abbrev pub serve : Settings → Request → RestBudgetManager → RestBudgetManager × Bool
serve s r = try_acquire s r.now (later_of r) r.weight r.lane

abbrev pub same_lane : RestLane → RestLane → Bool
same_lane execution execution = true
same_lane background background = true
same_lane bootstrap bootstrap = true
same_lane _ _ = false

abbrev pub entry_of : RestLane → Request → Bool → List Entry
entry_of lane r ok = if ok && same_lane r.lane lane then (later_of r, max r.weight 1) ∷ [] else []

-- The acquisitions of a lane, in order, when the requests are made one after the other.
unfoldable pub acquired : Settings → RestLane → RestBudgetManager → List Request → List Entry
acquired s lane m [] = []
acquired s lane m (r ∷ rs) =
    let (m', ok) = serve s r m in entry_of lane r ok ++ acquired s lane m' rs

-- Each request begins when the one before it has ended, or later.
abbrev pub InOrder : ℕ → List Request → Type 0
InOrder t [] = Unit
InOrder t (r ∷ rs) = (t ≤ r.now) × InOrder (later_of r) rs

record Tracks (s : Settings) (lane : RestLane) (now : ℕ) (m : RestBudgetManager) (log : List Entry)
    : Type 0 where
  splits : Splits entry_time entry_weight 60001 now log (window_of lane m)
  bounded : Bounded entry_time entry_weight 60001 (cap_for s lane) log

old_left : (now : ℕ) (e : Entry) → is_old now e ≡ true → entry_time e + 60001 ≤ now
old_left now e h = ground arith

pub purge_old-window :
    (now : ℕ) (lane : RestLane) (m : RestBudgetManager)
    → window_of lane (purge_old now m) ≡ drop_while (is_old now) (window_of lane m)
unfolding purge_old window_of
purge_old-window now execution m = refl
purge_old-window now background m = refl
purge_old-window now bootstrap m = refl

pub append_to-window :
    (lane other : RestLane) (e : Entry) (m : RestBudgetManager)
    → window_of lane (append_to other e m)
      ≡ window_of lane m ++ (if same_lane other lane then e ∷ [] else [])
unfolding append_to window_of
append_to-window execution execution e m = refl
append_to-window lane other e m = ground (
  arith,
  append-nil m.execution_window,
  append-nil m.background_window,
  append-nil m.bootstrap_window,
)

same_lane_eq : (a b : RestLane) → same_lane a b ≡ true → a ≡ b
same_lane_eq execution execution h = refl
same_lane_eq a b h = ground arith

append-Tracks :
    {s : Settings} {lane : RestLane} {now : ℕ} {m : RestBudgetManager} {log : List Entry}
    (other : RestLane) (w : ℕ)
    → Tracks s lane now m log
    → weight_sum (window_of other m) + w ≤ cap_for s other
    → Tracks s lane now
        (append_to other (now, w) m)
        (log ++ (if same_lane other lane then (now, w) ∷ [] else []))
append-Tracks {s} {lane} {now} {m} {log} other w t room = elim (Bool-cases (same_lane other lane)) [
  | inl same ↦
      let e : other ≡ lane = same_lane_eq other lane same in
      record {
        splits =
            rw (append_to-window, same)
              (Splits-append entry_time entry_weight ((now, w) ∷ []) t.splits);
        bounded = rw same (
            Bounded-append entry_time entry_weight (now, w) t.splits t.bounded refl (rw e at room));
      }
  | inr differs ↦ record {
    splits = rw (append_to-window, differs, append-nil, append-nil) t.splits;
    bounded = rw (differs, append-nil) t.bounded;
  }
]

-- The test of a lane with a budget, and the append that may follow it.
abbrev check_then_append :
    Settings → ℕ → ℕ → ℕ → RestLane → RestBudgetManager → RestBudgetManager × Bool
check_then_append s now later weight lane m =
    let (m', room) = check_lane s now weight lane m in
    if room then (append_to lane (later, max weight 1) m', true) else (m', false)

try_acquire-budgeted :
    (s : Settings) (now later weight : ℕ) (lane : RestLane) (m : RestBudgetManager)
    → lane ≢ execution
    → try_acquire s now later weight lane m ≡ check_then_append s now later weight lane m
unfolding try_acquire acquire_step has_budget_for
try_acquire-budgeted s now later weight execution m h = absurd (h refl)
try_acquire-budgeted s now later weight background m h =
    elim (Bool-cases (check_lane s now weight background m).1) [
      | inl e ↦ rw e refl
      | inr e ↦ rw e refl
    ]
try_acquire-budgeted s now later weight bootstrap m h =
    elim (Bool-cases (check_lane s now weight bootstrap m).1) [
      | inl e ↦ rw e refl
      | inr e ↦ rw e refl
    ]

try_acquire-execution :
    (s : Settings) (now later weight : ℕ) (lane : RestLane) (m : RestBudgetManager)
    → lane ≡ execution
    → try_acquire s now later weight lane m ≡ (m, true)
unfolding try_acquire acquire_step
try_acquire-execution s now later weight execution m h = refl
try_acquire-execution s now later weight lane m h = cc

abbrev checked : Settings → Request → RestBudgetManager → RestBudgetManager × Bool
checked s r m = check_then_append s r.now (later_of r) r.weight r.lane m

checked-Tracks :
    {s : Settings} {lane : RestLane} {now : ℕ} {m : RestBudgetManager} {log : List Entry}
    (r : Request)
    → now ≤ r.now
    → Tracks s lane now m log
    → Tracks s lane (later_of r) (checked s r m).0 (log ++ entry_of lane r (checked s r m).1)
unfolding check_lane
checked-Tracks {s} {lane} {now} {m} {log} r le t =
    elim (Bool-cases (check_lane s r.now r.weight r.lane m).1) [
      | inl room ↦ rw room (append-Tracks r.lane (max r.weight 1) purged (leb→le _ _ room))
      | inr full ↦ rw (full, append-nil) purged
    ]
  where
    purged : Tracks s lane (later_of r) (purge_old r.now m) log
    purged = record {
      splits = rw (purge_old-window r.now lane m) (
          Splits-later entry_time entry_weight (omega arith) (
            Splits-drop entry_time entry_weight (is_old r.now) (old_left r.now)
              (Splits-later entry_time entry_weight le t.splits)));
      bounded = t.bounded;
    }

RestLane-discrete : Discrete RestLane
RestLane-discrete = hlevel

other_lane : (a b : RestLane) → a ≡ execution → b ≢ execution → same_lane a b ≡ false
other_lane execution execution e h = absurd (h refl)
other_lane a b e h = ground arith

empty-Tracks :
    (s : Settings) (lane : RestLane) (max_weight : ℕ)
    → Tracks s lane 0 (new_manager s max_weight) []
unfolding new_manager window_of
empty-Tracks s execution w = record {
  splits = record { older = []; split = refl; left = tt };
  bounded = λ _. omega arith;
}
empty-Tracks s lane w = record {
  splits = record { older = []; split = refl; left = tt };
  bounded = λ _. omega arith;
}

-- The order lane is never held back here, and records nothing.
serve-Tracks :
    {s : Settings} {lane : RestLane} {now : ℕ} {m : RestBudgetManager} {log : List Entry}
    (r : Request)
    → lane ≢ execution
    → now ≤ r.now
    → Tracks s lane now m log
    → Tracks s lane (later_of r) (serve s r m).0 (log ++ entry_of lane r (serve s r m).1)
serve-Tracks {s} {lane} {now} {m} {log} r budgeted le t =
    elim (RestLane-discrete r.lane execution) [
      | yes e ↦
          rw
            (
              try_acquire-execution s r.now (later_of r) r.weight r.lane m e,
              other_lane r.lane lane e budgeted,
              append-nil,
            )
            (record {
              splits = Splits-later entry_time entry_weight (omega arith) t.splits;
              bounded = t.bounded;
            })
      | no ne ↦
          rw (try_acquire-budgeted s r.now (later_of r) r.weight r.lane m ne)
            (checked-Tracks r le t)
    ]

acquired-Tracks :
    (s : Settings) (lane : RestLane) (now : ℕ) (m : RestBudgetManager) (log : List Entry)
    (rs : List Request)
    → lane ≢ execution
    → InOrder now rs
    → Tracks s lane now m log
    → Bounded entry_time entry_weight 60001 (cap_for s lane) (log ++ acquired s lane m rs)
unfolding acquired
acquired-Tracks s lane now m log [] b o t = rw append-nil t.bounded
acquired-Tracks s lane now m log (r ∷ rs) b o t =
    let (m', ok) = serve s r m in
    rw (← append_assoc log (entry_of lane r ok) (acquired s lane m' rs)) (
      acquired-Tracks s lane (later_of r) m' (log ++ entry_of lane r ok) rs b o.1
        (serve-Tracks r b o.0 t))

-- The weight acquired in a lane within the closed interval [from, from + 60 s].
abbrev pub weight_in_minute : ℕ → List Entry → ℕ
weight_in_minute from = within entry_time entry_weight from (from + 60001)

-- From a new manager, requests made one after the other never acquire more than the budget of the
-- background or the bootstrap lane in any interval of 60 seconds, its two ends included.
pub acquired-le-cap :
    (s : Settings) (lane : RestLane) (max_weight : ℕ) (rs : List Request) (from : ℕ)
    → lane ≢ execution
    → InOrder 0 rs
    → weight_in_minute from (acquired s lane (new_manager s max_weight) rs) ≤ cap_for s lane
acquired-le-cap s lane max_weight rs from b o =
    acquired-Tracks s lane 0 (new_manager s max_weight) [] rs b o (empty-Tracks s lane max_weight)
      from
