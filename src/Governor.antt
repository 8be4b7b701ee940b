-- ===== src/Governor.antt =====
-- core/execution_governor.py: at most N entry-order REST submissions in a rolling minute. Times
-- are readings of `time.monotonic()` in milliseconds.
pub mod Rate
use binance_future_bot.Base.{
  ℕ, ◌+◌, ◌-◌, ◌≤◌, ◌≡◌, Bool, Option, none, some, List, [], ◌∷◌, ◌++◌, max, leb, length,
  if◌then◌else◌,
}
use binance_future_bot.Base.Window.{drop_while}
use binance_future_bot.Settings.{Settings, max_entry_orders_per_minute}

pub record ExecutionGovernor : Type 0 where
  pub override : Option ℕ
  pub stamps : List ℕ

-- The answer of `allow_entry_order`; a refusal carries the limit that its message shows.
pub data Answer : Type 0 where
  allowed : Answer
  deferred : ℕ → Answer

unfoldable pub new_governor : Option ℕ → ExecutionGovernor
new_governor max_per_minute = record {
  override = elim max_per_minute [ none ↦ none | some n ↦ some (max n 1) ];
  stamps = [];
}

unfoldable pub limit_of : Settings → ExecutionGovernor → ℕ
limit_of s g = elim g.override [ none ↦ max_entry_orders_per_minute s | some n ↦ n ]

-- A stamp has left the rolling minute.
abbrev pub expired : ℕ → ℕ → Bool
expired now stamp = leb 60000 (now - stamp)

unfoldable pub allow_entry_order : Settings → ℕ → ExecutionGovernor → ExecutionGovernor × Answer
allow_entry_order s now g =
    let limit = limit_of s g in
    let kept = drop_while (expired now) g.stamps in
    if leb limit (length kept)
    then (record g { stamps = kept }, deferred limit)
    else (record g { stamps = kept ++ now ∷ [] }, allowed)
