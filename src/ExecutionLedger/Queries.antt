-- ===== src/ExecutionLedger/Queries.antt =====
-- core/execution_ledger.py: what the ledger answers without a change of its state.
use binance_future_bot.Base.{
  ℕ, ◌-◌, ◌*◌, Bool, true, false, ◌&&◌, ◌||◌, Option, none, some, List, [], ◌∷◌, max, if◌then◌else◌,
  ◌=?◌, length, filter, drop, text_eq, nat_eq, pair_eq,
}
use binance_future_bot.Base.Text.{Text, upper}
use binance_future_bot.Base.Dict.{lookup, values}
use binance_future_bot.ExecutionLedger.{
  ExecutionPhase, ExecId, ExecutionRecord, ExecutionLedger, is_unresolved, signal_detected,
  trade_approved, execution_queued, order_submitting, binance_ack, order_id_received,
  order_accepted, order_filled, partially_filled, position_confirmed, order_rejected,
  order_submission_failed, rate_limited, canceled,
}

-- `find_by_ids`, where an empty text asks for nothing.
abbrev pub asks : Text → Text → Bool
asks [] has = false
asks (c ∷ wanted) has = has =? (c ∷ wanted)

abbrev pub is_text : Text → Bool
is_text [] = false
is_text (_ ∷ _) = true

unfoldable pub find_in : Text → Text → Text → List ExecutionRecord → Option ExecutionRecord
find_in client binance symbol [] = none
find_in client binance symbol (r ∷ rs) =
    let rest = find_in client binance symbol rs in
    if asks client r.client_order_id
      || asks binance r.binance_order_id
      || (asks symbol r.symbol && is_unresolved r.phase && is_text r.client_order_id)
    then some r
    else rest

unfoldable pub find_by_ids : Text → Text → Text → ExecutionLedger → Option ExecutionRecord
unfolding find_in
find_by_ids client binance symbol l = find_in client binance (upper symbol) (values l.records)

abbrev pub is_queued : ExecutionPhase → Bool
is_queued execution_queued = true
is_queued order_submitting = true
is_queued _ = false

abbrev pub phase_holds : (ExecutionPhase → Bool) → ExecutionLedger → ExecId → Bool
phase_holds p l id = elim (lookup id l.records) [ none ↦ false | some r ↦ p r.phase ]

unfoldable pub queued_count : ExecutionLedger → ℕ
queued_count l = length (filter (phase_holds is_queued l) l.order)

-- The group that `recent_summary` counts a phase in.
pub data Group : Type 0 where
  approved submitted filled rejected failed uncounted : Group

unfoldable pub group_of : ExecutionPhase → Group
group_of order_filled = filled
group_of partially_filled = filled
group_of position_confirmed = filled
group_of order_rejected = rejected
group_of order_submission_failed = failed
group_of rate_limited = failed
group_of canceled = failed
group_of binance_ack = submitted
group_of order_id_received = submitted
group_of order_accepted = submitted
group_of order_submitting = submitted
group_of trade_approved = approved
group_of signal_detected = approved
group_of execution_queued = approved
group_of _ = uncounted

abbrev pub same_group : Group → Group → Bool
same_group approved approved = true
same_group submitted submitted = true
same_group filled filled = true
same_group rejected rejected = true
same_group failed failed = true
same_group _ _ = false

-- The count of one group among the last ids.
unfoldable pub recent_summary : ℕ → Group → ExecutionLedger → ℕ
unfolding group_of
recent_summary limit group l =
    let ids = drop (length l.order - max (limit * 4) 20) l.order in
    length (filter (phase_holds (λ phase. same_group (group_of phase) group) l) ids)
