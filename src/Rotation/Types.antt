-- ===== src/Rotation/Types.antt =====
-- core/symbol_rotation_manager.py: the manager's state, the settings it reads, and the texts of
-- the life-cycle states of core/types.py. Times are milliseconds.
use binance_future_bot.Base.{ℕ, Bool, List, [], ◌∷◌}
use binance_future_bot.Base.Text.{Text, codes}
use binance_future_bot.Base.Dict.{Dict}

pub record Config : Type 0 where
  pub enable_rotation : Bool
  pub enable_funnel : Bool
  pub hot_size : ℕ
  -- `Config.scan_watchlist_size()`
  pub watchlist_size : ℕ
  pub purge_ms : ℕ
  pub memory_min_minutes : ℕ
  pub memory_max_minutes : ℕ
  pub opportunity_hot_min : ℕ
  pub universe_pool_size : ℕ
  pub rotating_batch_size : ℕ
  pub background_batch_size : ℕ

pub record SymbolRotationManager : Type 0 where
  pub evaluated : Dict Text ℕ
  pub last_full_purge_at : ℕ
  pub rotation_cycle : ℕ

abbrev pub dormant : Text
dormant = codes "DORMANT"

abbrev pub weakened : Text
weakened = codes "WEAKENED"

abbrev pub active : Text
active = codes "ACTIVE"

abbrev pub priority_states : List Text
priority_states = codes "HOT" ∷ codes "OPPORTUNITY" ∷ []

abbrev pub scannable_states : List Text
scannable_states =
    codes "CANDIDATE" ∷ codes "WATCH" ∷ active ∷ codes "HOT" ∷ codes "OPPORTUNITY" ∷ weakened ∷ []
