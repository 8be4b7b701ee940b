-- ===== src/RateGuard/Tracking.antt =====
-- The log of what the calls of `RestUsageTracker` record, against the local window that it keeps.
use mathlib.Core.List.{append-nil, append_assoc}
use binance_future_bot.Base.{
  ℕ, ◌+◌, ◌≤◌, ◌≡◌, ◌⊎◌, inl, inr, refl, Bool, true, false, ◌&&◌, List, [], ◌∷◌, ◌++◌, arith, max,
  ltb, All, Bool-cases,
}
use binance_future_bot.Base.Window.{
  drop_while, Ordered, total, Bounded, Splits, Splits-later, Splits-drop, Splits-append,
  Bounded-append, Bounded-append_none,
}
use binance_future_bot.Settings.{Settings}
use binance_future_bot.Base.Text.{Text}
use binance_future_bot.RateGuard.Types.{ErrorCode, RestComponent, order, is_halted}
use binance_future_bot.RateGuard.Tracker.{
  Entry, entry_at, RestUsageTracker, new_tracker, decay_used_weight, purge_local_weight, purge,
  effective_state, settle, snapshot, is_old, is_old_request,
}
use binance_future_bot.RateGuard.Calls.{
  HttpResponse, allows_component_rest, allows_new_entries, in_safety_mode, try_reserve, has_room,
  record_entry, note_outgoing_weight, note_http_response, note_used_weight, note_status,
  note_retry_after, note_transport_error, note_binance_error, projected_used_weight,
  force_clear_safety,
}
use binance_future_bot.RateGuard.Runs.{
  Call, allows, reserve, outgoing, response, transport_failed, failed, entries_asked, safety_asked,
  weight_asked, clear, serve, run, recorded, log, times,
}

decay-window :
    (now : ℕ) (t : RestUsageTracker) → (decay_used_weight now t).local_window ≡ t.local_window
unfolding decay_used_weight
decay-window now t = ground arith

settle-window :
    (s : Settings) (now remaining : ℕ) (t : RestUsageTracker)
    → (settle s now remaining t).local_window ≡ t.local_window
unfolding settle
settle-window s now remaining t = ground arith

-- A property of the local window that forgetting old entries keeps, a snapshot keeps.
module _ {ℓ} (P : List Entry → Type ℓ) (now : ℕ)
    (drops : (w : List Entry) → P w → P (drop_while (is_old now) w)) where
  purge-window : (t : RestUsageTracker) → P t.local_window → P (purge now t).local_window
  unfolding purge
  purge-window t h =
      drops _
        (rw (decay-window now (record t { window = drop_while (is_old_request now) t.window })) h)

  purged-window :
      (t : RestUsageTracker)
      → P t.local_window
      → P (purge_local_weight now (decay_used_weight now t)).local_window
  unfolding purge_local_weight
  purged-window t h = drops _ (rw (decay-window now t) h)

  effective-window :
      (s : Settings) (remaining : ℕ) (t : RestUsageTracker)
      → P t.local_window
      → P (effective_state s now remaining t).local_window
  unfolding effective_state
  effective-window s remaining t h =
      elim (Bool-cases (ltb 0 remaining && is_halted (decay_used_weight now t).state)) [
        | inl halted ↦ rw (halted, decay-window now t) h
        | inr free ↦
            rw
              (
                free,
                settle-window s now remaining (purge_local_weight now (decay_used_weight now t)),
              )
              (drops _ (rw (decay-window now t) h))
      ]

  snapshot-window :
      (s : Settings) (t : RestUsageTracker) → P t.local_window → P (snapshot s now t).0.local_window
  unfolding snapshot
  snapshot-window s t h =
      effective-window s _ (purge_local_weight now (decay_used_weight now (purge now t)))
        (purged-window (purge now t) (purge-window t h))

-- The window that `try_reserve` and `note_outgoing_weight` see once it is purged.
abbrev pub kept : ℕ → RestUsageTracker → List Entry
kept now t = drop_while (is_old now) t.local_window

abbrev pub purged : ℕ → RestUsageTracker → RestUsageTracker
purged now t = purge_local_weight now (decay_used_weight now t)

pub purged-kept : (now : ℕ) (t : RestUsageTracker) → (purged now t).local_window ≡ kept now t
unfolding purge_local_weight
purged-kept now t = rw (decay-window now t)

abbrev pub entry : ℕ → RestComponent → ℕ → Entry
entry now c w = record { at = now; weight = max w 1; component = c }

pub try_reserve_granted :
    (s : Settings) (now : ℕ) (c : RestComponent) (w : ℕ) (t : RestUsageTracker)
    → has_room s c (max w 1) (purged now t) ≡ true
    → try_reserve s now c w t ≡ (record_entry (entry now c w) (purged now t), true)
unfolding try_reserve
try_reserve_granted s now c w t h = rw h

pub try_reserve_refused :
    (s : Settings) (now : ℕ) (c : RestComponent) (w : ℕ) (t : RestUsageTracker)
    → has_room s c (max w 1) (purged now t) ≡ false
    → try_reserve s now c w t ≡ (purged now t, false)
unfolding try_reserve
try_reserve_refused s now c w t h = rw h

response-window :
    (s : Settings) (now : ℕ) (r : HttpResponse) (t : RestUsageTracker)
    → (note_http_response s now r t).local_window ≡ t.local_window
unfolding note_http_response note_status note_retry_after note_used_weight
response-window s now r t = ground arith

error-window :
    (now : ℕ) (code : ErrorCode) (message : Text) (halt : ℕ) (banned : Bool) (t : RestUsageTracker)
    → (note_binance_error now code message halt banned t).local_window ≡ t.local_window
unfolding note_binance_error
error-window now code message halt banned t = ground arith

clear-window :
    (why : Text) (t : RestUsageTracker) → (force_clear_safety why t).0.local_window ≡ t.local_window
unfolding force_clear_safety
clear-window why t = ground arith

module _ (f : Entry → ℕ) (cap : ℕ) where
  pub record Tracks (now : ℕ) (t : RestUsageTracker) (seen : List Entry) : Type 0 where
    pub splits : Splits entry_at f 60001 now seen t.local_window
    pub bounded : Bounded entry_at f 60001 cap seen

  -- Each entry that a call records fits under the cap, or weighs nothing here.
  abbrev pub Fits : Settings → ℕ → Call → RestUsageTracker → Type 0
  Fits s now call t =
      All (λ e. (total entry_at f (kept now t) + f e ≤ cap) ⊎ (f e ≡ 0)) (recorded s now call t)

  old_left : (now : ℕ) (e : Entry) → is_old now e ≡ true → entry_at e + 60001 ≤ now
  old_left now e h = ground arith

  -- What holds of the window when a call begins, and after old entries are forgotten.
  abbrev pub Kept : ℕ → List Entry → List Entry → Type 0
  Kept now seen w = Splits entry_at f 60001 now seen w

  pub Kept-drop :
      (now : ℕ) (seen w : List Entry) → Kept now seen w → Kept now seen (drop_while (is_old now) w)
  Kept-drop now seen w k = Splits-drop entry_at f (is_old now) (old_left now) k

  record_entry-Tracks :
      (now : ℕ) (t : RestUsageTracker) (seen : List Entry) (e : Entry)
      → e.at ≡ now
      → (total entry_at f t.local_window + f e ≤ cap) ⊎ (f e ≡ 0)
      → Tracks now t seen
      → Tracks now (record_entry e t) (seen ++ e ∷ [])
  record_entry-Tracks now t seen e same fits k = record {
    splits = Splits-append entry_at f (e ∷ []) k.splits;
    bounded = elim fits [
      | inl room ↦ Bounded-append entry_at f e k.splits k.bounded same room
      | inr none ↦ Bounded-append_none entry_at f 60001 cap seen e none k.bounded
    ];
  }

  -- A call that only looks: nothing is recorded, and the window is at most purged.
  looks-Tracks :
      (now : ℕ) (t t' : RestUsageTracker) (seen : List Entry)
      → Kept now seen t'.local_window
      → Tracks now t seen
      → Tracks now t' (seen ++ [])
  looks-Tracks now t t' seen k h = rw append-nil (record { splits = k; bounded = h.bounded })

  reserve-Tracks :
      (s : Settings) (now : ℕ) (c : RestComponent) (w : ℕ) (t : RestUsageTracker)
      (seen : List Entry)
      → Fits s now (reserve c w) t
      → Tracks now t seen
      → Tracks now (serve s now (reserve c w) t) (seen ++ recorded s now (reserve c w) t)
  unfolding serve recorded
  reserve-Tracks s now c w t seen fits h =
      elim (Bool-cases (has_room s c (max w 1) (purged now t))) [
        | inl room ↦
            let fit = rw (try_reserve_granted s now c w t room) at fits in
            rw (try_reserve_granted s now c w t room, serve)
              (record_entry-Tracks now (purged now t) seen (entry now c w) refl
                (rw (purged-kept now t) fit.0) before)
        | inr full ↦ rw (try_reserve_refused s now c w t full, serve, append-nil) before
      ]
    where
      before : Tracks now (purged now t) seen
      before = record {
        splits = purged-window (Kept now seen) now (Kept-drop now seen) t h.splits;
        bounded = h.bounded;
      }

  serve-Tracks :
      (s : Settings) (now : ℕ) (call : Call) (t : RestUsageTracker) (seen : List Entry)
      → Fits s now call t
      → Tracks now t seen
      → Tracks now (serve s now call t) (seen ++ recorded s now call t)
  unfolding serve recorded allows_component_rest note_outgoing_weight purge_local_weight
      note_http_response note_transport_error allows_new_entries in_safety_mode
      projected_used_weight
  serve-Tracks s now (reserve c w) t seen fits h = reserve-Tracks s now c w t seen fits h
  serve-Tracks s now (outgoing w) t seen fits h =
      record_entry-Tracks now (purge_local_weight now t) seen
        (record { at = now; weight = max w 1; component = order }) refl fits.0
        (record { splits = Kept-drop now seen _ h.splits; bounded = h.bounded })
  serve-Tracks s now (allows c w) t seen fits h =
      looks-Tracks now t _ seen
        (snapshot-window (Kept now seen) now (Kept-drop now seen) s t h.splits) h
  serve-Tracks s now entries_asked t seen fits h =
      looks-Tracks now t _ seen
        (snapshot-window (Kept now seen) now (Kept-drop now seen) s t h.splits) h
  serve-Tracks s now safety_asked t seen fits h =
      looks-Tracks now t _ seen
        (snapshot-window (Kept now seen) now (Kept-drop now seen) s t h.splits) h
  serve-Tracks s now weight_asked t seen fits h =
      looks-Tracks now t _ seen
        (purged-window (Kept now seen) now (Kept-drop now seen) (purge now t)
          (purge-window (Kept now seen) now (Kept-drop now seen) t h.splits))
        h
  serve-Tracks s now (response r) t seen fits h =
      looks-Tracks now t _ seen (rw (response-window s now r t) h.splits) h
  serve-Tracks s now (transport_failed why) t seen fits h = looks-Tracks now t _ seen h.splits h
  serve-Tracks s now (failed code message halt banned) t seen fits h =
      looks-Tracks now t _ seen (rw (error-window now code message halt banned t) h.splits) h
  serve-Tracks s now (clear why) t seen fits h =
      looks-Tracks now t _ seen (rw (clear-window why t) h.splits) h

  Tracks-later :
      {now later : ℕ} {t : RestUsageTracker} {seen : List Entry}
      → now ≤ later
      → Tracks now t seen
      → Tracks later t seen
  Tracks-later le h = record { splits = Splits-later entry_at f le h.splits; bounded = h.bounded }

  -- Calls at times that never go back, up to `last`.
  pub run-Tracks :
      (s : Settings) (ok : Call → Bool)
      → ((now : ℕ) (call : Call) (t : RestUsageTracker) → ok call ≡ true → Fits s now call t)
      → (calls : List (ℕ × Call)) (now last : ℕ) (t : RestUsageTracker) (seen : List Entry)
      → All (λ c. ok c.1 ≡ true) calls
      → Ordered now (times calls ++ last ∷ [])
      → Tracks now t seen
      → Tracks last (run s calls t) (seen ++ log s calls t)
  unfolding run log
  run-Tracks s ok fits [] now last t seen a o h = rw append-nil (Tracks-later o.0 h)
  run-Tracks s ok fits ((later, call) ∷ calls) now last t seen a o h =
      rw (← append_assoc seen (recorded s later call t) (log s calls (serve s later call t))) (
        run-Tracks s ok fits calls later last (serve s later call t)
          (seen ++ recorded s later call t) a.1 o.1
          (serve-Tracks s later call t seen (fits later call t a.0) (Tracks-later o.0 h)))

  pub new-Tracks : Tracks 0 new_tracker []
  unfolding new_tracker
  new-Tracks = record {
    splits = record { older = []; split = refl; left = tt };
    bounded = λ _. omega arith;
  }
