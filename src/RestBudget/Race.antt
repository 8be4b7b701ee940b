-- ===== src/RestBudget/Race.antt =====
-- Two threads in `try_acquire` at once. The lock is released between the test and the append, so
-- both tests may run before either append.
use binance_future_bot.Base.{
  ℕ, ◌+◌, ◌*◌, ◌≤◌, ◌<◌, ◌≡◌, ◌≢◌, refl, ap, Bool, true, List, [], ◌∷◌, arith, max, le→leb,
}
use binance_future_bot.Base.Window.{drop_while, total-append}
use binance_future_bot.Settings.{Settings}
use binance_future_bot.RestBudget.{
  RestLane, execution, background, bootstrap, Acquiring, starting, appending, answered,
  acquire_step, Entry, entry_time, entry_weight, weight_sum, RestBudgetManager, window_of,
  append_to, cap_for, purge_old, check_lane, has_budget_for,
}
use binance_future_bot.RestBudget.Caps.{same_lane, append_to-window, purge_old-window}

-- Two calls on one lane, where each of them stands, and the budget they share.
pub record Threads : Type 0 where
  pub first : Acquiring
  pub second : Acquiring
  pub budget : RestBudgetManager

-- Whose step is next, and the clock it reads.
pub data Turn : Type 0 where
  of_first of_second : (now : ℕ) → Turn

unfoldable pub step : Settings → ℕ → RestLane → Turn → Threads → Threads
step s weight lane (of_first now) t =
    let (m, place) = acquire_step s now weight lane t.first t.budget in
    record t { first = place; budget = m }
step s weight lane (of_second now) t =
    let (m, place) = acquire_step s now weight lane t.second t.budget in
    record t { second = place; budget = m }

unfoldable pub interleave : Settings → ℕ → RestLane → List Turn → Threads → Threads
unfolding step
interleave s weight lane [] t = t
interleave s weight lane (turn ∷ turns) t =
    interleave s weight lane turns (step s weight lane turn t)

abbrev pub both_start : RestBudgetManager → Threads
both_start m = record { first = starting; second = starting; budget = m }

-- Both test at `now`, and append at `at₁` and `at₂`.
abbrev pub both_test_first : ℕ → ℕ → ℕ → List Turn
both_test_first now at₁ at₂ = of_first now ∷ of_second now ∷ of_first at₁ ∷ of_second at₂ ∷ []

drop_while_idem {ℓ} :
    {A : Type ℓ} (p : A → Bool) (l : List A) → drop_while p (drop_while p l) ≡ drop_while p l
drop_while_idem p [] = refl
drop_while_idem p (x ∷ l) = ground (arith, drop_while_idem p l)

purge_twice :
    (now : ℕ) (lane : RestLane) (m : RestBudgetManager)
    → window_of lane (purge_old now (purge_old now m)) ≡ window_of lane (purge_old now m)
purge_twice now lane m = rw (purge_old-window, purge_old-window, drop_while_idem)

same_lane_refl : (l : RestLane) → same_lane l l ≡ true
same_lane_refl execution = refl
same_lane_refl l = refl

has_budget-check :
    (s : Settings) (now weight : ℕ) (lane : RestLane) (m : RestBudgetManager)
    → lane ≢ execution
    → has_budget_for s now weight lane m ≡ check_lane s now weight lane m
unfolding has_budget_for
has_budget-check s now weight execution m h = absurd (h refl)
has_budget-check s now weight lane m h = refl

append-sum :
    (lane : RestLane) (e : Entry) (m : RestBudgetManager)
    → weight_sum (window_of lane (append_to lane e m))
      ≡ weight_sum (window_of lane m) + entry_weight e
append-sum lane e m =
    rw (append_to-window, same_lane_refl lane)
      (omega (arith, total-append entry_time entry_weight (window_of lane m) (e ∷ [])))

-- The test of a call that finds room, and its append.
test_passes :
    (s : Settings) (now weight : ℕ) (lane : RestLane) (m : RestBudgetManager)
    → lane ≢ execution
    → weight_sum (window_of lane (purge_old now m)) + max weight 1 ≤ cap_for s lane
    → acquire_step s now weight lane starting m ≡ (purge_old now m, appending)
unfolding acquire_step check_lane
test_passes s now weight execution m b once = absurd (b refl)
test_passes s now weight background m b once =
    rw (has_budget-check s now weight background m b, le→leb _ _ once) refl
test_passes s now weight bootstrap m b once =
    rw (has_budget-check s now weight bootstrap m b, le→leb _ _ once) refl

append_answers :
    (s : Settings) (now weight : ℕ) (lane : RestLane) (m : RestBudgetManager)
    → lane ≢ execution
    → acquire_step s now weight lane appending m
      ≡ (append_to lane (now, max weight 1) m, answered true)
unfolding acquire_step
append_answers s now weight lane m b = refl

-- There is an order of the steps of two calls of `try_acquire`, both tests before either append, in
-- which, if the lane has room for the weight once but not twice, both calls are granted it and the
-- lane then holds more than its budget, whenever the appends are made.
pub try_acquire-exceeds :
    (s : Settings) (now at₁ at₂ weight : ℕ) (lane : RestLane) (m : RestBudgetManager)
    → lane ≢ execution
    → weight_sum (window_of lane (purge_old now m)) + max weight 1 ≤ cap_for s lane
    → cap_for s lane < weight_sum (window_of lane (purge_old now m)) + 2 * max weight 1
    → let t = interleave s weight lane (both_test_first now at₁ at₂) (both_start m) in
      (t.first ≡ answered true)
      × (t.second ≡ answered true)
      × (cap_for s lane < weight_sum (window_of lane t.budget))
unfolding interleave step
try_acquire-exceeds s now at₁ at₂ weight lane m b once twice =
    let again = ap weight_sum (purge_twice now lane m) in
    rw
      (
        test_passes s now weight lane m b once,
        test_passes s now weight lane (purge_old now m) b (omega (arith, once, again)),
        append_answers s at₁ weight lane (purge_old now (purge_old now m)) b,
        append_answers s at₂ weight lane
            (append_to lane (at₁, max weight 1) (purge_old now (purge_old now m))) b,
      )
      (
        refl,
        refl,
        omega (
          arith,
          append-sum lane (at₂, max weight 1)
              (append_to lane (at₁, max weight 1) (purge_old now (purge_old now m))),
          append-sum lane (at₁, max weight 1) (purge_old now (purge_old now m)),
          again,
        ),
      )
