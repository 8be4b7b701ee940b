-- ===== src/RateGuard/Reserve.antt =====
-- What `try_reserve` bounds, over any sequence of calls of the tracker.
use binance_future_bot.Base.{
  ℕ, ◌+◌, ◌-◌, ◌≤◌, ◌≡◌, ◌≢◌, ◌⊎◌, inl, inr, refl, Bool, true, false, not, List, [], ◌∷◌, ◌++◌,
  arith, max, min, All, Bool-cases, ap,
}
use binance_future_bot.Base.Window.{Ordered, within, total, Splits, within-recent, Splits-reweigh}
use binance_future_bot.Settings.{
  Settings, rest_hard_weight_cap, rest_soft_weight_ceiling, rest_weight_throttle_threshold,
}
use binance_future_bot.RateGuard.Types.{
  RestComponent, order, hot, normal, same_component, component_budget,
}
use binance_future_bot.RateGuard.Tracker.{
  Entry, entry_at, entry_weight, weight_on, RestUsageTracker, new_tracker, component_sum,
  local_weight_sum, projected,
}
use binance_future_bot.RateGuard.Calls.{try_reserve, has_room}
use binance_future_bot.RateGuard.Runs.{
  Call, allows, reserve, outgoing, is_outgoing, run, recorded, log, times,
}
use binance_future_bot.RateGuard.Tracking.{
  Tracks, Fits, Kept-drop, kept, purged, purged-kept, entry, try_reserve_granted,
  try_reserve_refused, run-Tracks, new-Tracks,
}

-- The total up to which a lane may reserve.
unfoldable pub ceiling : Settings → RestComponent → ℕ
ceiling s order = rest_hard_weight_cap s
ceiling s hot = min (rest_hard_weight_cap s) (rest_soft_weight_ceiling s)
ceiling s normal =
    min (min (rest_hard_weight_cap s) (rest_soft_weight_ceiling s))
      (rest_weight_throttle_threshold s)

has_room-budget :
    (s : Settings) (c : RestComponent) (w : ℕ) (t : RestUsageTracker)
    → has_room s c w t ≡ true
    → component_sum c t + w ≤ component_budget s c
unfolding has_room
has_room-budget s c w t h = ground arith

has_room-ceiling :
    (s : Settings) (c : RestComponent) (w : ℕ) (t : RestUsageTracker)
    → has_room s c w t ≡ true
    → projected t + w ≤ ceiling s c
unfolding has_room ceiling
has_room-ceiling s order w t h = ground arith
has_room-ceiling s c w t h = ground arith

-- A reservation records at most one entry, and only where `has_room` passed.
reserve-Fits :
    (f : Entry → ℕ) (cap : ℕ) (s : Settings) (now : ℕ) (c : RestComponent) (w : ℕ)
    (t : RestUsageTracker)
    → (has_room s c (max w 1) (purged now t) ≡ true
        → (total entry_at f (kept now t) + f (entry now c w) ≤ cap) ⊎ (f (entry now c w) ≡ 0))
    → Fits f cap s now (reserve c w) t
unfolding recorded
reserve-Fits f cap s now c w t fits = elim (Bool-cases (has_room s c (max w 1) (purged now t))) [
  | inl room ↦ rw (try_reserve_granted s now c w t room) (fits room, tt)
  | inr full ↦ rw (try_reserve_refused s now c w t full) tt
]

same_component_eq : (a b : RestComponent) → same_component a b ≡ true → a ≡ b
same_component_eq order order h = refl
same_component_eq a b h = ground arith

not_order : (lane : RestComponent) → lane ≢ order → same_component order lane ≡ false
not_order order ne = absurd (ne refl)
not_order lane ne = refl

lane_room :
    (s : Settings) (lane c : RestComponent) (now w : ℕ) (t : RestUsageTracker)
    → has_room s c (max w 1) (purged now t) ≡ true
    → (total entry_at (weight_on lane) (kept now t) + weight_on lane (entry now c w)
        ≤ component_budget s lane)
      ⊎ (weight_on lane (entry now c w) ≡ 0)
unfolding component_sum
lane_room s lane c now w t room = elim (Bool-cases (same_component c lane)) [
  | inl same ↦
      let e = same_component_eq c lane same in
      inl (rw (same, ← purged-kept now t, ← e) (has_room-budget s c (max w 1) (purged now t) room))
  | inr other ↦ inr (rw other)
]

abbrev any_call : Call → Bool
any_call _ = true

lane-Fits :
    (s : Settings) (lane : RestComponent)
    → lane ≢ order
    → (now : ℕ) (call : Call) (t : RestUsageTracker) → any_call call ≡ true
    → Fits (weight_on lane) (component_budget s lane) s now call t
unfolding recorded
lane-Fits s lane ne now (reserve c w) t _ =
    reserve-Fits (weight_on lane) (component_budget s lane) s now c w t (lane_room s lane c now w t)
lane-Fits s lane ne now (outgoing w) t _ = (inr (rw (not_order lane ne)), tt)
lane-Fits s lane ne now (allows c w) t _ = tt
lane-Fits s lane ne now call t _ = tt

every_call : (calls : List (ℕ × Call)) → All (λ c. any_call c.1 ≡ true) calls
every_call [] = tt
every_call (c ∷ calls) = (refl, every_call calls)

total_room :
    (s : Settings) (c : RestComponent) (now w : ℕ) (t : RestUsageTracker)
    → has_room s c (max w 1) (purged now t) ≡ true
    → total entry_at entry_weight (kept now t) + max w 1 ≤ ceiling s c
unfolding local_weight_sum projected
total_room s c now w t room = omega (
  arith,
  has_room-ceiling s c (max w 1) (purged now t) room,
  ap (total entry_at entry_weight) (purged-kept now t),
)

ceiling-le-hard : (s : Settings) (c : RestComponent) → ceiling s c ≤ rest_hard_weight_cap s
unfolding ceiling
ceiling-le-hard s order = omega arith
ceiling-le-hard s c = omega arith

abbrev checked : Call → Bool
checked call = not (is_outgoing call)

total-Fits :
    (s : Settings) (now : ℕ) (call : Call) (t : RestUsageTracker)
    → checked call ≡ true
    → Fits entry_weight (rest_hard_weight_cap s) s now call t
unfolding recorded
total-Fits s now (reserve c w) t _ =
    reserve-Fits entry_weight (rest_hard_weight_cap s) s now c w t
      λ room. inl (omega (arith, total_room s c now w t room, ceiling-le-hard s c))
total-Fits s now (outgoing w) t h = cc
total-Fits s now (allows c w) t _ = tt
total-Fits s now call t _ = tt

-- The weight that the entries put on a lane, or in all, within the closed interval
-- [from, from + 60 s].
abbrev pub lane_in_minute : RestComponent → ℕ → List Entry → ℕ
lane_in_minute c from = within entry_at (weight_on c) from (from + 60001)

abbrev pub total_in_minute : ℕ → List Entry → ℕ
total_in_minute from = within entry_at entry_weight from (from + 60001)

-- From a new tracker, whatever calls are made at times that never go back: the weight reserved for
-- the hot or the normal lane in any interval of 60 seconds is within that lane's budget.
pub lane_in_minute-le :
    (s : Settings) (lane : RestComponent) (calls : List (ℕ × Call)) (last from : ℕ)
    → lane ≢ order
    → Ordered 0 (times calls ++ last ∷ [])
    → lane_in_minute lane from (log s calls new_tracker) ≤ component_budget s lane
lane_in_minute-le s lane calls last from ne o =
    (run-Tracks (weight_on lane) (component_budget s lane) s any_call (lane-Fits s lane ne) calls 0
        last new_tracker [] (every_call calls) o
        (new-Tracks (weight_on lane) (component_budget s lane))).bounded
      from

-- From a new tracker, whatever calls are made at times that never go back, as long as none of them
-- records weight unchecked by `note_outgoing_weight`: the weight reserved by all lanes together in
-- any interval of 60 seconds is within the hard cap.
pub total_in_minute-le :
    (s : Settings) (calls : List (ℕ × Call)) (last from : ℕ)
    → All (λ c. not (is_outgoing c.1) ≡ true) calls
    → Ordered 0 (times calls ++ last ∷ [])
    → total_in_minute from (log s calls new_tracker) ≤ rest_hard_weight_cap s
total_in_minute-le s calls last from unchecked o =
    (run-Tracks entry_weight (rest_hard_weight_cap s) s checked (total-Fits s) calls 0 last
        new_tracker [] unchecked o (new-Tracks entry_weight (rest_hard_weight_cap s))).bounded
      from

abbrev nothing : Entry → ℕ
nothing _ = 0

nothing-Fits :
    (s : Settings) (now : ℕ) (call : Call) (t : RestUsageTracker)
    → any_call call ≡ true
    → Fits nothing 0 s now call t
unfolding recorded
nothing-Fits s now (reserve c w) t _ = reserve-Fits nothing 0 s now c w t λ room. inr refl
nothing-Fits s now (outgoing w) t _ = (inr refl, tt)
nothing-Fits s now (allows c w) t _ = tt
nothing-Fits s now call t _ = tt

-- After any calls from a new tracker, a reservation of a lane that is granted leaves the weight of
-- the last 60 seconds, unchecked weight included, within the lane's ceiling: the hard cap for
-- orders, the soft ceiling for the hot lane, the throttle threshold for the normal lane.
pub reserve-le-ceiling :
    (s : Settings) (c : RestComponent) (calls : List (ℕ × Call)) (now w : ℕ)
    → Ordered 0 (times calls ++ now ∷ [])
    → (try_reserve s now c w (run s calls new_tracker)).1 ≡ true
    → total_in_minute (now - 60000) (log s calls new_tracker) + max w 1 ≤ ceiling s c
reserve-le-ceiling s c calls now w o granted =
    elim (Bool-cases (has_room s c (max w 1) (purged now t))) [
      | inl room ↦ omega (
        arith,
        total_room s c now w t room,
        within-recent entry_at entry_weight (now - 60000) recent (omega arith),
      )
      | inr full ↦
          absurd
            (cc (ap (λ (r : RestUsageTracker × Bool). r.1) (try_reserve_refused s now c w t full)))
    ]
  where
    t : RestUsageTracker
    t = run s calls new_tracker

    tracked : Tracks nothing 0 now t (log s calls new_tracker)
    tracked =
        run-Tracks nothing 0 s any_call (nothing-Fits s) calls 0 now new_tracker []
          (every_call calls) o (new-Tracks nothing 0)

    recent : Splits entry_at entry_weight 60001 now (log s calls new_tracker) (kept now t)
    recent =
        Splits-reweigh entry_weight
          (Kept-drop nothing 0 now (log s calls new_tracker) t.local_window tracked.splits)
