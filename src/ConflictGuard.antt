-- ===== src/ConflictGuard.antt =====
-- core/symbol_conflict_guard.py: which candidate may enter a symbol. The exchange's positions, the
-- database's open trades and cooldowns, and the blacklist are a record of answers. The messages are
-- constructors, and the log lines of `reject_with_log` are left out, but for when it writes one.
pub mod Approved
use binance_future_bot.Base.{
  ℕ, ◌-◌, Bool, true, false, ◌&&◌, ◌||◌, not, Option, none, some, List, [], ◌∷◌, ltb, max,
  if◌then◌else◌, ◌=?◌, text_eq,
}
use binance_future_bot.Base.Text.{Text, codes, upper}
use binance_future_bot.Base.Dict.{Dict, lookup, insert}

pub record SignalCandidate : Type 0 where
  pub symbol : Text
  pub action : Text
  pub strategy : Text

-- A row of the database; a missing field is the empty text.
pub record Trade : Type 0 where
  pub side : Text
  pub strategy : Text

-- What the exchange, the database and the configuration answer during one call.
pub record Answers : Type 0 where
  pub allow_scale_in : Bool
  pub has_open_position : Text → Text → Bool
  pub open_trades : Text → List Trade
  pub is_blacklisted : Text → Bool
  pub is_on_cooldown : Text → Bool

pub data Reason : Type 0 where
  cycle_conflict cycle_scale_in opposing_position position_open db_conflict db_scale_in : Reason
  blacklisted on_cooldown : Reason

abbrev pub Claims : Type 0
Claims = Dict Text SignalCandidate

abbrev pub long : Text
long = codes "LONG"

abbrev pub short : Text
short = codes "SHORT"

abbrev pub is_blank : Text → Bool
is_blank [] = true
is_blank (_ ∷ _) = false

-- A test of the chain: none to go on, or the reason to refuse.
abbrev pub or_next : Option Reason → Option Reason → Option Reason
or_next (some v) next = some v
or_next none next = next

unfoldable pub check_cycle : Answers → SignalCandidate → Claims → Option Reason
check_cycle e c claims = elim (lookup (upper c.symbol) claims) [
  | none ↦ none
  | some existing ↦
      if not (existing.action =? upper c.action)
      then some cycle_conflict
      else if not (existing.strategy =? c.strategy) && not e.allow_scale_in
      then some cycle_scale_in
      else none
]

abbrev pub opposes : Answers → Text → Text → Text → Bool
opposes e symbol action side = not (side =? action) && e.has_open_position symbol side

unfoldable pub check_positions : Answers → Text → Text → Option Reason
check_positions e symbol action =
    if opposes e symbol action long || opposes e symbol action short
    then some opposing_position
    else if e.has_open_position symbol action && not e.allow_scale_in
    then some position_open
    else none

unfoldable pub check_trade : Answers → Text → Text → Trade → Option Reason
check_trade e action strategy t =
    let side = upper t.side in
    if not (is_blank side) && not (side =? action)
    then some db_conflict
    else if side =? action
        && not (is_blank t.strategy)
        && not (t.strategy =? strategy)
        && not e.allow_scale_in
    then some db_scale_in
    else none

unfoldable pub check_trades : Answers → Text → Text → List Trade → Option Reason
unfolding check_trade
check_trades e action strategy [] = none
check_trades e action strategy (t ∷ trades) =
    or_next (check_trade e action strategy t) (check_trades e action strategy trades)

unfoldable pub check_symbol : Answers → Text → Option Reason
check_symbol e symbol =
    if e.is_blacklisted symbol
    then some blacklisted
    else if e.is_on_cooldown symbol
    then some on_cooldown
    else none

unfoldable pub refusal : Answers → SignalCandidate → Claims → Option Reason
unfolding check_cycle check_positions check_trades check_symbol
refusal e c claims =
    let symbol = upper c.symbol in
    let action = upper c.action in
    or_next (check_cycle e c claims) (
      or_next (check_positions e symbol action)
        (or_next (check_trades e action c.strategy (e.open_trades symbol)) (check_symbol e symbol)))

-- The claims, and the reason of a refusal.
unfoldable pub approve : Answers → SignalCandidate → Claims → Claims × Option Reason
unfolding refusal
approve e c claims = elim (refusal e c claims) [
  | some v ↦ (claims, some v)
  | none ↦ (insert (upper c.symbol) c claims, none)
]

unfoldable pub reset_cycle : Claims → Claims
reset_cycle claims = []

unfoldable pub claim_for_execution : SignalCandidate → Claims → Claims
claim_for_execution c claims = insert (upper c.symbol) c claims

-- `reject_with_log`: the times of the last lines, and whether this call writes one. A key is the
-- symbol with the reason.
unfoldable pub reject_with_log : ℕ → ℕ → Text → Dict Text ℕ → Dict Text ℕ × Bool
reject_with_log interval now key logged =
    let last = elim (lookup key logged) as (λ _. ℕ) [ none ↦ 0 | some t ↦ t ] in
    if ltb (now - last) (max interval 60000) then (logged, false) else (insert key now logged, true)
