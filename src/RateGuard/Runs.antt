-- ===== src/RateGuard/Runs.antt =====
-- Sequences of calls of `RestUsageTracker`, and what they record in its local window.
use binance_future_bot.Base.{ℕ, Bool, true, false, List, [], ◌∷◌, ◌++◌, max, if◌then◌else◌}
use binance_future_bot.Base.Text.{Text}
use binance_future_bot.Settings.{Settings}
use binance_future_bot.RateGuard.Types.{RestComponent, order, ErrorCode}
use binance_future_bot.RateGuard.Tracker.{Entry, RestUsageTracker}
use binance_future_bot.RateGuard.Calls.{
  HttpResponse, allows_component_rest, allows_new_entries, in_safety_mode, try_reserve,
  note_outgoing_weight, note_http_response, note_transport_error, note_binance_error,
  projected_used_weight, force_clear_safety,
}

-- The calls of the tracker.
pub data Call : Type 0 where
  allows : RestComponent → ℕ → Call
  reserve : RestComponent → ℕ → Call
  outgoing : ℕ → Call
  response : HttpResponse → Call
  transport_failed : Text → Call
  failed : ErrorCode → Text → ℕ → Bool → Call
  clear : Text → Call
  entries_asked safety_asked weight_asked : Call

unfoldable pub serve : Settings → ℕ → Call → RestUsageTracker → RestUsageTracker
serve s now (allows c w) t = (allows_component_rest s now c w t).0
serve s now (reserve c w) t = (try_reserve s now c w t).0
serve s now (outgoing w) t = note_outgoing_weight now w t
serve s now (response r) t = note_http_response s now r t
serve s now (transport_failed why) t = note_transport_error why t
serve s now (failed code message halt banned) t = note_binance_error now code message halt banned t
serve s now (clear why) t = (force_clear_safety why t).0
serve s now entries_asked t = (allows_new_entries s now t).0
serve s now safety_asked t = (in_safety_mode s now t).0
serve s now weight_asked t = (projected_used_weight now t).0

unfoldable pub run : Settings → List (ℕ × Call) → RestUsageTracker → RestUsageTracker
run s [] t = t
run s ((now, call) ∷ calls) t = run s calls (serve s now call t)

abbrev pub is_clear : Call → Bool
is_clear (clear why) = true
is_clear _ = false

abbrev pub is_outgoing : Call → Bool
is_outgoing (outgoing w) = true
is_outgoing _ = false

-- The entries that a call adds to the local window.
unfoldable pub recorded : Settings → ℕ → Call → RestUsageTracker → List Entry
recorded s now (reserve c w) t =
    if (try_reserve s now c w t).1
    then record { at = now; weight = max w 1; component = c } ∷ []
    else []
recorded s now (outgoing w) t = record { at = now; weight = max w 1; component = order } ∷ []
recorded s now _ t = []

unfoldable pub log : Settings → List (ℕ × Call) → RestUsageTracker → List Entry
log s [] t = []
log s ((now, call) ∷ calls) t = recorded s now call t ++ log s calls (serve s now call t)

abbrev pub times : List (ℕ × Call) → List ℕ
times [] = []
times ((now, call) ∷ calls) = now ∷ times calls
