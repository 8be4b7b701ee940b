-- ===== src/Controller/Flags.antt =====
-- bot_controller.py: what holds after any calls from the main loop and the command handlers.
use binance_future_bot.Base.{ℕ, ◌≡◌, refl, Bool, true, false, ◌||◌, not, List, [], ◌∷◌, arith}
use binance_future_bot.Base.Text.{Text}
use binance_future_bot.Controller.{
  BotController, new_controller, mark_started, request_shutdown, request_restart,
  clear_restart_flag, reset, pause_entries, resume_entries, force_resume_daily_limits,
  clear_daily_limit_override, is_manually_paused,
}

pub data Call : Type 0 where
  marks_started : ℕ → Call
  requests_shutdown requests_restart clears_restart resets : Call
  pauses : Text → Call
  resumes forces_resume clears_override : Call

unfoldable pub after_call : Call → BotController → BotController
after_call (marks_started now) c = mark_started now c
after_call requests_shutdown c = request_shutdown c
after_call requests_restart c = request_restart c
after_call clears_restart c = clear_restart_flag c
after_call resets c = reset c
after_call (pauses reason) c = pause_entries reason c
after_call resumes c = resume_entries c
after_call forces_resume c = force_resume_daily_limits c
after_call clears_override c = clear_daily_limit_override c

unfoldable pub after_calls : List Call → BotController → BotController
unfolding after_call
after_calls [] c = c
after_calls (k ∷ calls) c = after_calls calls (after_call k c)

-- Whether the calls leave the entries paused: the last of them that pauses or resumes decides.
unfoldable pub left_paused : List Call → Bool → Bool
left_paused [] paused = paused
left_paused (pauses reason ∷ calls) paused = left_paused calls true
left_paused (resumes ∷ calls) paused = left_paused calls false
left_paused (forces_resume ∷ calls) paused = left_paused calls false
left_paused (_ ∷ calls) paused = left_paused calls paused

record Sound (c : BotController) (paused : Bool) : Type 0 where
  stops : (not c.restart || c.shutdown) ≡ true
  pause : c.manual_pause ≡ paused

after_calls-Sound :
    (calls : List Call) (c : BotController) (paused : Bool)
    → Sound c paused
    → Sound (after_calls calls c) (left_paused calls paused)
unfolding after_calls after_call left_paused mark_started request_shutdown request_restart
    clear_restart_flag reset pause_entries resume_entries force_resume_daily_limits
    clear_daily_limit_override
after_calls-Sound [] c paused h = h
after_calls-Sound (marks_started now ∷ calls) c paused h =
    after_calls-Sound calls (mark_started now c) paused
      (let s = h.stops in let p = h.pause in record { stops = ground arith; pause = ground arith })
after_calls-Sound (requests_shutdown ∷ calls) c paused h =
    after_calls-Sound calls (request_shutdown c) paused
      (record { stops = ground arith; pause = h.pause })
after_calls-Sound (requests_restart ∷ calls) c paused h =
    after_calls-Sound calls (request_restart c) paused (record { stops = refl; pause = h.pause })
after_calls-Sound (clears_restart ∷ calls) c paused h =
    after_calls-Sound calls (clear_restart_flag c) paused (record { stops = refl; pause = h.pause })
after_calls-Sound (resets ∷ calls) c paused h =
    after_calls-Sound calls (reset c) paused (record { stops = refl; pause = h.pause })
after_calls-Sound (pauses reason ∷ calls) c paused h =
    after_calls-Sound calls (pause_entries reason c) true (record { stops = h.stops; pause = refl })
after_calls-Sound (resumes ∷ calls) c paused h =
    after_calls-Sound calls (resume_entries c) false (record { stops = h.stops; pause = refl })
after_calls-Sound (forces_resume ∷ calls) c paused h =
    after_calls-Sound calls (force_resume_daily_limits c) false
      (record { stops = h.stops; pause = refl })
after_calls-Sound (clears_override ∷ calls) c paused h =
    after_calls-Sound calls (clear_daily_limit_override c) paused
      (record { stops = h.stops; pause = h.pause })

-- From a new controller, after any calls: a requested restart is a requested shutdown too, and the
-- entries are paused exactly if the last call that pauses or resumes them paused them.
after_calls_flags :
    (calls : List Call)
    → let c = after_calls calls new_controller in
      ((not c.restart || c.shutdown) ≡ true) × ((is_manually_paused c).0 ≡ left_paused calls false)
unfolding is_manually_paused
after_calls_flags calls =
    let h = after_calls-Sound calls new_controller false (record { stops = refl; pause = refl }) in
    let p = h.pause in (h.stops, ground arith)
