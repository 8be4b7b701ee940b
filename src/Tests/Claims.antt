-- ===== src/Tests/Claims.antt =====
-- The mutexes, the gates, the claim files and the conflict guard at concrete inputs.
use binance_future_bot.Base.{
  List, ◌+◌, ◌-◌, ◌*◌, ◌≤◌, ◌≡◌, refl, true, false, some, ◌||◌, [], ◌∷◌, arith, Distinct, ◌=?◌,
  text_eq,
}
use binance_future_bot.Base.Text.{Text, codes, upper, to_upper}
use binance_future_bot.Base.Dict.{Dict, lookup, insert, keys}
use binance_future_bot.RateGuard.Types.{order, rest_pace}
use binance_future_bot.EntryMutex.{World, start, enter}
use binance_future_bot.EntryMutex.Steps.{begin, by_enter}
use binance_future_bot.EntryMutex.Exclusion.{one_body}
use binance_future_bot.TokenBucket.{RestTokenBucket, trigger_hard_stop}
use binance_future_bot.TokenBucket.Flow.{
  Call, take_weight, hard_stop, cleared, flow, flow-le, trigger_hard_stop-flow,
}
use binance_future_bot.LanePacer.{new_pacer}
use binance_future_bot.LanePacer.Gaps.{waits, tries, starts, Gaps, starts-Gaps}
use binance_future_bot.CloseNotice.{ClaimFile, claimed_at, claim_path, try_claim_close_notification}
use binance_future_bot.CloseNotice.Once.{senders, count, claim_taken, send_once}
use binance_future_bot.CloseNotice.Once
use binance_future_bot.ConflictGuard.{
  SignalCandidate, Answers, approve, refusal, check_cycle, check_positions, check_trades,
  check_symbol,
}
use binance_future_bot.ConflictGuard.Approved.{Cleared, approve-Cleared, approve-twice}
use binance_future_bot.Tests.Pacing.{defaults}

abbrev btc : Text
btc = codes "BTC"

abbrev entered : World
entered = (enter defaults 1000 btc start).0

one_body_example : Distinct (keys entered.bodies)
one_body_example = one_body defaults entered (by_enter 1000 btc begin)

abbrev bucket : RestTokenBucket
bucket = record {
  capacity = 1000000;
  tokens = 1000000;
  refill_rate = 100;
  last_refill = 0;
  hard_stop_until = 0;
}

abbrev bucket_calls : List Call
bucket_calls = take_weight 1000 5 ∷ hard_stop 1500 60000 ∷ cleared 1600 ∷ take_weight 2000 7 ∷ []

flow-le_example : flow bucket_calls bucket ≤ 1000000 + (3000 - 0) * 100 + 1 * 1000000
flow-le_example =
    flow-le bucket_calls bucket 3000
      (omega arith, (omega arith, (omega arith, (omega arith, omega arith))))

trigger_hard_stop-flow_example :
    flow (take_weight 6000 1 ∷ []) (trigger_hard_stop 1000 60000 bucket) ≡ 0
trigger_hard_stop-flow_example =
    trigger_hard_stop-flow 1000 60000 bucket (take_weight 6000 1 ∷ []) 6000
      (omega arith, omega arith, tt) refl (omega arith)

starts-Gaps_example :
    Gaps (rest_pace defaults order) (
      starts defaults order (waits 1000 order ∷ waits 1200 order ∷ tries 1300 order ∷ []) new_pacer)
starts-Gaps_example =
    starts-Gaps defaults order (waits 1000 order ∷ waits 1200 order ∷ tries 1300 order ∷ [])
      (omega arith, (omega arith, (omega arith, tt)))

abbrev claim_files : Dict Text ClaimFile
claim_files = (codes "t1", claimed_at 0) ∷ []

-- A day and a second later the claim is still refused.
claim_taken_example :
    try_claim_close_notification false 86400000 86401000 (codes "t1") claim_files
    ≡ (claim_files, false)
unfolding lookup claim_path
claim_taken_example = claim_taken 86400000 86401000 b't' (codes "1") claim_files (claimed_at 0) refl

abbrev alert : Once.Call
alert = record { ttl = 1000; now = 5; letter = b't'; rest = codes "2" }

send_once_example : count (codes "t2") (senders (alert ∷ alert ∷ []) claim_files) ≤ 1
send_once_example = send_once (codes "t2") (alert ∷ alert ∷ []) claim_files

abbrev quiet : Answers
quiet = record {
  allow_scale_in = false;
  has_open_position = λ symbol side. false;
  open_trades = λ symbol. [];
  is_blacklisted = λ symbol. false;
  is_on_cooldown = λ symbol. false;
}

abbrev candidate : SignalCandidate
candidate = record { symbol = codes "btc"; action = codes "LONG"; strategy = codes "trend" }

program : Unit {0}
unfolding approve refusal check_cycle check_positions check_trades check_symbol lookup insert upper
    to_upper
program = tt

approve-Cleared_example :
    Cleared quiet candidate × (lookup btc (approve quiet candidate []).0 ≡ some candidate)
unfolding program
approve-Cleared_example = approve-Cleared quiet candidate [] refl

approve-twice_example :
    (codes "LONG" ≡ upper (codes "LONG")) × (((codes "trend" =? codes "trend") || false) ≡ true)
unfolding program
approve-twice_example = approve-twice quiet quiet candidate candidate [] refl refl refl
