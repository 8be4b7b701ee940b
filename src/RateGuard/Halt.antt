-- ===== src/RateGuard/Halt.antt =====
-- What a 429 or a 418 response halts, and for how long.
use binance_future_bot.Base.{
  ℕ, ◌+◌, ◌-◌, ◌≤◌, ◌<◌, ◌≡◌, ◌⊎◌, inl, inr, refl, Bool, true, false, List, [], ◌∷◌, ◌++◌, arith,
  lt→ltb, if-both, All,
}
use binance_future_bot.Settings.{Settings}
use binance_future_bot.RateGuard.Types.{RestComponent, is_halted}
use binance_future_bot.RateGuard.Tracker.{
  RestUsageTracker, decay_used_weight, purge_local_weight, purge, effective_state, snapshot,
}
use binance_future_bot.RateGuard.Runs.{
  Call, allows, reserve, outgoing, response, transport_failed, failed, entries_asked, safety_asked,
  weight_asked, clear, is_clear, serve, run,
}
use binance_future_bot.RateGuard.Calls.{
  HttpResponse, allows_on, allows_component_rest, allows_new_entries, in_safety_mode, try_reserve,
  note_outgoing_weight, note_http_response, note_used_weight, note_status, note_retry_after,
  halt_for, note_transport_error, note_binance_error, projected_used_weight,
}

abbrev Halted : ℕ → RestUsageTracker → Type 0
Halted until t = (is_halted t.state ≡ true) × (until ≤ t.safety_until)

decay-Halted :
    (until now : ℕ) (t : RestUsageTracker) → Halted until t → Halted until (decay_used_weight now t)
unfolding decay_used_weight
decay-Halted until now t h = ground arith

purge-Halted : (until now : ℕ) (t : RestUsageTracker) → Halted until t → Halted until (purge now t)
unfolding purge
purge-Halted until now t h = decay-Halted until now (record t { window = _ }) h

-- While some of the halt remains, the effective state is the halted one.
effective-Halted :
    (s : Settings) (until now remaining : ℕ) (t : RestUsageTracker)
    → 0 < remaining
    → Halted until t
    → Halted until (effective_state s now remaining t)
unfolding effective_state
effective-Halted s until now remaining t pos h =
    let d = decay-Halted until now t h in rw (lt→ltb 0 remaining pos) (rw d.0 d)

-- Before the halt ends, a snapshot leaves the state halted.
snapshot-Halted :
    (s : Settings) (until now : ℕ) (t : RestUsageTracker)
    → now < until
    → Halted until t
    → Halted until (snapshot s now t).0 × (is_halted (snapshot s now t).1.state ≡ true)
unfolding snapshot
snapshot-Halted s until now t lt h =
    let purged = decay-Halted until now (purge now t) (purge-Halted until now t h) in
    let e =
      effective-Halted s until now ((decay_used_weight now (purge now t)).safety_until - now)
        (purge_local_weight now (decay_used_weight now (purge now t))) (omega arith) purged in
    (e, e.0)

note_used_weight-Halted :
    (s : Settings) (until now used : ℕ) (t : RestUsageTracker)
    → Halted until t
    → Halted until (note_used_weight s now used t)
unfolding note_used_weight
note_used_weight-Halted s until now used t h = ground arith

note_retry_after-Halted :
    (until seconds : ℕ) (t : RestUsageTracker)
    → Halted until t
    → Halted until (note_retry_after seconds t)
unfolding note_retry_after
note_retry_after-Halted until seconds t h = ground arith

note_status-Halted :
    (s : Settings) (until now : ℕ) (r : HttpResponse) (t : RestUsageTracker)
    → Halted until t
    → Halted until (note_status s now r t)
unfolding note_status is_halted
note_status-Halted s until now r t h = ground arith

response-Halted :
    (s : Settings) (until now : ℕ) (r : HttpResponse) (t : RestUsageTracker)
    → Halted until t
    → Halted until (note_http_response s now r t)
unfolding note_http_response
response-Halted s until now r t h =
    let counted = record t { window = t.window ++ now ∷ []; last_http_status = r.status } in
    note_status-Halted s until now r _ (
      note_retry_after-Halted until r.retry_after _
        (note_used_weight-Halted s until now r.used_weight counted h))

serve-Halted :
    (s : Settings) (until now : ℕ) (call : Call) (t : RestUsageTracker)
    → now < until
    → is_clear call ≡ false
    → Halted until t
    → Halted until (serve s now call t)
unfolding serve is_halted allows_component_rest try_reserve note_outgoing_weight
    note_transport_error note_binance_error allows_new_entries in_safety_mode projected_used_weight
    purge_local_weight
serve-Halted s until now (allows c w) t lt k h = (snapshot-Halted s until now t lt h).0
serve-Halted s until now (reserve c w) t lt k h =
    let d = decay-Halted until now t h in
    if-both {A = RestUsageTracker × Bool} (λ x. Halted until x.0) _ d d
serve-Halted s until now (outgoing w) t lt k h = h
serve-Halted s until now (response r) t lt k h = response-Halted s until now r t h
serve-Halted s until now (transport_failed why) t lt k h = h
serve-Halted s until now (failed code message halt banned) t lt k h = ground arith
serve-Halted s until now entries_asked t lt k h = (snapshot-Halted s until now t lt h).0
serve-Halted s until now safety_asked t lt k h = (snapshot-Halted s until now t lt h).0
serve-Halted s until now (clear why) t lt k h = cc
serve-Halted s until now weight_asked t lt k h =
    decay-Halted until now (purge now t) (purge-Halted until now t h)

run-Halted :
    (s : Settings) (until : ℕ) (calls : List (ℕ × Call)) (t : RestUsageTracker)
    → All (λ c. (c.0 < until) × (is_clear c.1 ≡ false)) calls
    → Halted until t
    → Halted until (run s calls t)
unfolding run
run-Halted s until [] t before h = h
run-Halted s until ((now, call) ∷ calls) t before h =
    run-Halted s until calls _ before.1 (serve-Halted s until now call t before.0.0 before.0.1 h)

halts :
    (s : Settings) (now : ℕ) (r : HttpResponse) (t : RestUsageTracker)
    → (r.status ≡ 418) ⊎ (r.status ≡ 429)
    → Halted (now + 900000) (note_http_response s now r t)
unfolding note_http_response note_status is_halted halt_for
halts s now r t (inl ban) = ground arith
halts s now r t (inr limited) = ground arith

-- After a 418 or a 429, and whatever other calls follow (but `force_clear_safety`), for the next 15
-- minutes no lane is allowed a REST call, no new entry is allowed, and the guard reports safety mode.
pub halted_for_15_minutes :
    (s : Settings) (now : ℕ) (r : HttpResponse) (t : RestUsageTracker) (calls : List (ℕ × Call))
    (later weight : ℕ) (component : RestComponent)
    → (r.status ≡ 418) ⊎ (r.status ≡ 429)
    → All (λ c. (c.0 < now + 900000) × (is_clear c.1 ≡ false)) calls
    → later < now + 900000
    → ((allows_component_rest s later component weight
          (run s calls (note_http_response s now r t))).1
        ≡ false)
      × ((allows_new_entries s later (run s calls (note_http_response s now r t))).1 ≡ false)
      × ((in_safety_mode s later (run s calls (note_http_response s now r t))).1 ≡ true)
unfolding allows_component_rest allows_new_entries in_safety_mode allows_on
halted_for_15_minutes s now r t calls later weight component status before lt =
    let h =
      run-Halted s (now + 900000) calls (note_http_response s now r t) before
        (halts s now r t status) in
    let e =
      snapshot-Halted s (now + 900000) later (run s calls (note_http_response s now r t)) lt h in
    rw e.1 (refl, refl, refl)
