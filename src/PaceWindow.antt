-- ===== src/PaceWindow.antt =====
-- core/pace_clock.py: at most so many takes in a rolling minute. Times are milliseconds.
pub mod Rate
use binance_future_bot.Base.{
  ℕ, zero, suc, ◌-◌, Bool, List, [], ◌∷◌, ◌++◌, min, leb, length, if◌then◌else◌,
}
use binance_future_bot.Base.Window.{drop_while}

pub record MinuteWindow : Type 0 where
  pub per_minute : ℕ
  pub stamps : List ℕ

abbrev pub new_window : ℕ → MinuteWindow
new_window per_minute = record { per_minute = per_minute; stamps = [] }

abbrev pub is_old : ℕ → ℕ → Bool
is_old now stamp = leb 60000 (now - stamp)

unfoldable pub trim : ℕ → MinuteWindow → MinuteWindow
trim now w = record w { stamps = drop_while (is_old now) w.stamps }

unfoldable pub remaining : ℕ → MinuteWindow → MinuteWindow × ℕ
unfolding trim
remaining now w = let w' = trim now w in (w', w'.per_minute - length w'.stamps)

abbrev pub copies : ℕ → ℕ → List ℕ
copies zero stamp = []
copies (suc n) stamp = stamp ∷ copies n stamp

unfoldable pub take_slots : ℕ → ℕ → MinuteWindow → MinuteWindow × ℕ
unfolding remaining
take_slots n now w =
    let (w', left) = remaining now w in
    let granted = min n left in (record w' { stamps = w'.stamps ++ copies granted now }, granted)
