-- ===== src/Tests/Ledger.antt =====
-- The execution ledger over a restart.
use binance_future_bot.Base.{◌≡◌, refl, true, List, [], ◌∷◌, arith, map, mem, nat_eq, pair_eq}
use binance_future_bot.Base.Text.{Text, codes}
use binance_future_bot.Base.Dict.{keys, lookup, insert}
use binance_future_bot.ExecutionLedger.{
  ExecId, no_details, order_submitting, order_filled, empty_ledger, open_ledger, unresolved,
  next_id, new_record, transition, set_phase, persist,
}
use binance_future_bot.ExecutionLedger.Restart.{Call, created, moved, after_calls}
use binance_future_bot.ExecutionLedger.Restart.Load.{
  without_error, restart-unresolved, restart-repeats,
}

abbrev client_id : ExecId → Text
client_id _ = codes "bfb"

-- Two orders of a day: the first is filled, the second under way.
abbrev calls : List Call
calls =
    created 10 20260101 (codes "btc") (codes "long") (codes "smc") 70
    ∷ moved 11 (20260101, 1) order_filled no_details
    ∷ created 12 20260101 (codes "eth") (codes "long") (codes "smc") 70
    ∷ moved 13 (20260101, 2) order_submitting no_details
    ∷ []

restart-unresolved_example :
    unresolved (open_ledger 20 20260101 80 (after_calls client_id calls (empty_ledger 80 [])).file)
    ≡ map without_error (unresolved (after_calls client_id calls (empty_ledger 80 [])))
restart-unresolved_example =
    restart-unresolved client_id 80 20 20260101 calls
      (omega arith, (omega arith, (omega arith, (omega arith, tt))))

abbrev filled : List Call
filled =
    created 10 20260101 (codes "btc") (codes "long") (codes "smc") 70
    ∷ moved 11 (20260101, 1) order_filled no_details
    ∷ []

restart-repeats_example :
    mem
      (next_id 20260101
        (open_ledger 20 20260101 80 (after_calls client_id filled (empty_ledger 80 [])).file)).1
      (keys (after_calls client_id filled (empty_ledger 80 [])).records)
    ≡ true
unfolding after_calls new_record next_id transition set_phase persist unresolved lookup insert
restart-repeats_example =
    restart-repeats client_id 80 20 20260101 filled (omega arith, (omega arith, tt)) refl refl
