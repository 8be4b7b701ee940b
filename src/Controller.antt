-- ===== src/Controller.antt =====
-- bot_controller.py: the flags that stop, restart and pause the bot. Each method runs under the
-- controller's lock, so it is one step. Texts are lists of code points.
pub mod Flags
use binance_future_bot.Base.{ℕ, Bool, true, false, List, [], ◌∷◌, if◌then◌else◌, ltb}
use binance_future_bot.Base.Text.{Text, codes}

pub record BotController : Type 0 where
  pub shutdown : Bool
  pub restart : Bool
  pub manual_pause : Bool
  pub manual_pause_reason : Text
  pub force_daily_limit_override : Bool
  pub started_at_mono : ℕ

abbrev pub new_controller : BotController
new_controller = record {
  shutdown = false;
  restart = false;
  manual_pause = false;
  manual_pause_reason = [];
  force_daily_limit_override = false;
  started_at_mono = 0;
}

unfoldable pub mark_started : ℕ → BotController → BotController
mark_started now c = if ltb 0 c.started_at_mono then c else record c { started_at_mono = now }

unfoldable pub request_shutdown : BotController → BotController
request_shutdown c = record c { shutdown = true }

unfoldable pub request_restart : BotController → BotController
request_restart c = record c { restart = true; shutdown = true }

unfoldable pub clear_restart_flag : BotController → BotController
clear_restart_flag c = record c { restart = false }

unfoldable pub reset : BotController → BotController
reset c = record c { shutdown = false; restart = false }

unfoldable pub pause_entries : Text → BotController → BotController
pause_entries reason c = record c { manual_pause = true; manual_pause_reason = reason }

unfoldable pub resume_entries : BotController → BotController
resume_entries c = record c { manual_pause = false; manual_pause_reason = [] }

unfoldable pub force_resume_daily_limits : BotController → BotController
force_resume_daily_limits c = record c {
  force_daily_limit_override = true;
  manual_pause = false;
  manual_pause_reason = [];
}

unfoldable pub clear_daily_limit_override : BotController → BotController
clear_daily_limit_override c = record c { force_daily_limit_override = false }

-- `a or b` on texts
abbrev pub text_or : Text → Text → Text
text_or [] b = b
text_or (c ∷ a) b = c ∷ a

unfoldable pub is_manually_paused : BotController → Bool × Text
is_manually_paused c =
    if c.manual_pause
    then (true, text_or c.manual_pause_reason (codes "Entries manually paused."))
    else (false, [])
