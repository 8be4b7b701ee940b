-- ===== src/Funnel/Backtest/Stuck.antt =====
-- core/tier_funnel.py: a Hot coin whose history stays short.
use binance_future_bot.Base.{ℕ, ◌≤◌, ◌≡◌, false, some, List, [], ◌∷◌, mem, text_eq, Distinct, max}
use binance_future_bot.Base.Text.{Text}
use binance_future_bot.Base.Dict.{lookup, keys}
use binance_future_bot.Funnel.Types.{Config, HotRecord, TierFunnel}
use binance_future_bot.Funnel.Calls.{Call, after_calls}
use binance_future_bot.Funnel.Tiers.Reached.{left_after}
use binance_future_bot.Funnel.Tiers.Spares.{AllSpare}
use binance_future_bot.Funnel.Backtest.{Progress, pending_record, note_hot_backtest_pending}

-- A turn of the coin whose backtest finds the history short, and what the funnel did before it.
pub record Visit : Type 0 where
  pub between : List Call
  pub now : ℕ
  pub progress : Progress

abbrev pub after_visit : Config → Text → Visit → TierFunnel → TierFunnel
after_visit c symbol v m =
    note_hot_backtest_pending c v.now symbol v.progress (after_calls c v.between m)

unfoldable pub after_visits : Config → Text → List Visit → TierFunnel → TierFunnel
after_visits c symbol [] m = m
after_visits c symbol (v ∷ visits) m = after_visits c symbol visits (after_visit c symbol v m)

-- What the funnel does before the turns is about other coins.
abbrev pub AllOther : Text → List Visit → Type 0
AllOther key [] = Unit
AllOther key (v ∷ visits) = AllSpare key v.between × AllOther key visits

-- The bars of a report.
abbrev pub reported : Progress → ℕ
reported p = max (max p.counted p.in_reason) p.in_memory

-- The most bars that the turns report, or that were there before.
abbrev pub most_bars : ℕ → List Visit → ℕ
most_bars bars [] = bars
most_bars bars (v ∷ visits) = most_bars (max (reported v.progress) bars) visits

abbrev pub left_by_visits : List Visit → List Text → List Text
left_by_visits [] left = left
left_by_visits (v ∷ visits) left = left_by_visits visits (left_after v.between left)

-- A coin that waits in Hot for its backtest, with the first limit of passes.
pub record Waits (key : Text) (rec : HotRecord) (m : TierFunnel) : Type 0 where
  pub found : lookup key m.hot ≡ some rec
  pub once : Distinct (keys m.hot)
  pub not_passed : rec.backtest_passed ≡ false
  pub no_limit : rec.pending_pass_limit ≡ 0

-- A coin that is out of Hot, and may not come back before the time.
pub record Barred (key : Text) (until : ℕ) (m : TierFunnel) : Type 0 where
  pub gone : mem key (keys m.hot) ≡ false
  pub held :
      (deadline : ℕ) × (until ≤ deadline) × (lookup key m.demote_cooldown_until ≡ some deadline)

-- The record of the coin after the turns.
abbrev noted : Config → List Visit → HotRecord → HotRecord
noted c [] rec = rec
noted c (v ∷ visits) rec = noted c visits (pending_record c v.now v.progress rec)
