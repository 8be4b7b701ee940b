-- ===== src/EventScheduler.antt =====
-- core/event_scheduler.py: the queue of candle-close events. Times are milliseconds. The heap is the
-- list of its items in the order in which they leave it. The hash of a symbol and the bar that a
-- catch-up asks for are arguments, and so is each reading of the clock.
pub mod Drain
use binance_future_bot.Base.{
  ℕ, zero, suc, ◌+◌, ◌-◌, ◌*◌, ◌%◌, ◌≡◌, refl, ap, Bool, true, false, ◌&&◌, ◌||◌, not, Option, none,
  some, List, [], ◌∷◌, arith, ltb, leb, ◌==◌, ==_iff, if◌then◌else◌, length, filter, mem, text_eq,
  nat_eq, pair_eq,
}
use binance_future_bot.Base.Text.{Text, upper}
use binance_future_bot.Base.Dict.{Dict, lookup, insert, keys}
use binance_future_bot.Base.Sort.{insert_by}

pub data Source : Type 0 where
  from_ws from_catchup from_timer : Source

pub record CandleCloseEvent : Type 0 where
  pub symbol : Text
  pub timeframe : Text
  pub bar_open : ℕ
  pub source : Source
  pub due_at : ℕ

-- An entry of the heap: `(due_at, seq, event)`.
pub record Item : Type 0 where
  pub due : ℕ
  pub seq : ℕ
  pub event : CandleCloseEvent

-- `(symbol, timeframe, bar_open_ms)`
abbrev pub Bar : Type 0
Bar = Text × (Text × ℕ)

pub record EventScheduler : Type 0 where
  pub trigger_timeframes : List Text
  pub stagger : ℕ
  pub heap : List Item
  pub seq : ℕ
  pub seen : Dict Bar ℕ
  pub last_evaluated : Dict (Text × Text) ℕ

abbrev pub new_scheduler : List Text → ℕ → EventScheduler
new_scheduler timeframes stagger = record {
  trigger_timeframes = timeframes;
  stagger = stagger;
  heap = [];
  seq = 0;
  seen = [];
  last_evaluated = [];
}

-- The order of the tuples. No two items have the same number, so events are never compared.
unfoldable pub sooner : Item → Item → Bool
sooner x y = ltb x.due y.due || (x.due == y.due && ltb x.seq y.seq)

-- `self._seq += 1` and `heappush`
unfoldable pub push : ℕ → CandleCloseEvent → EventScheduler → EventScheduler
unfolding sooner insert_by
push due event m = record m {
  seq = suc m.seq;
  heap = insert_by sooner (record { due = due; seq = suc m.seq; event = event }) m.heap;
}

abbrev pub seen_ttl : ℕ
seen_ttl = 3600000

unfoldable pub purge_seen : ℕ → Dict Bar ℕ → Dict Bar ℕ
purge_seen now seen = filter (λ x. not (ltb x.1 (now - seen_ttl))) seen

unfoldable pub on_candle_close :
    (Text → ℕ) → ℕ → Text → Text → ℕ → Source → EventScheduler → EventScheduler
unfolding push purge_seen
on_candle_close hash now raw timeframe bar_open source m =
    let symbol = upper raw in
    let bar : Bar = (symbol, (timeframe, bar_open)) in
    let due = now + (hash symbol % 1000) * m.stagger in
    let event : CandleCloseEvent = record {
      symbol = symbol;
      timeframe = timeframe;
      bar_open = bar_open;
      source = source;
      due_at = due;
    } in
    if not (mem timeframe m.trigger_timeframes) || bar_open == 0
    then m
    else if mem bar (keys m.seen)
    then m
    else push due event (record m { seen = purge_seen now (insert bar now m.seen) })

-- The loop of `drain_due`, with the room left in the answer: the events due, and the heap.
unfoldable pub drain_from : ℕ → ℕ → List Item → List Item × List Item
drain_from room now [] = ([], [])
drain_from zero now (x ∷ l) = ([], x ∷ l)
drain_from (suc room) now (x ∷ l) =
    let rest = drain_from room now l in if ltb now x.due then ([], x ∷ l) else (x ∷ rest.0, rest.1)

unfoldable pub drain_due : ℕ → ℕ → EventScheduler → EventScheduler × List Item
unfolding drain_from
drain_due limit now m = let out = drain_from limit now m.heap in (record m { heap = out.1 }, out.0)

unfoldable pub pending_count : EventScheduler → ℕ
pending_count m = length m.heap

unfoldable pub requeue : ℕ → CandleCloseEvent → ℕ → EventScheduler → EventScheduler
unfolding push
requeue now event delay m =
    let bar : Bar = (upper event.symbol, (event.timeframe, event.bar_open)) in
    push (now + delay) event (record m { seen = insert bar now m.seen })

unfoldable pub last_evaluated_of : Text → Text → EventScheduler → ℕ
unfolding lookup
last_evaluated_of symbol timeframe m = elim (lookup (upper symbol, timeframe) m.last_evaluated) [
  | none ↦ 0
  | some bar ↦ bar
]

unfoldable pub mark_evaluated : Text → Text → ℕ → EventScheduler → EventScheduler
unfolding last_evaluated_of
mark_evaluated symbol timeframe bar_open m =
    if ltb (last_evaluated_of symbol timeframe m) bar_open
    then record m { last_evaluated = insert (upper symbol, timeframe) bar_open m.last_evaluated }
    else m

-- The body of the inner loop of `run_catchup`, which counts what it schedules.
unfoldable pub catch_up :
    (Text → ℕ)
    → ℕ
    → (Text → Text → Option ℕ)
    → Text
    → Text
    → EventScheduler × ℕ
    → EventScheduler × ℕ
unfolding on_candle_close last_evaluated_of pending_count
catch_up hash now bar_of symbol timeframe (m, scheduled) =
    let closed : ℕ = elim (bar_of symbol timeframe) [ none ↦ 0 | some bar ↦ bar ] in
    let m' = on_candle_close hash now symbol timeframe closed from_catchup m in
    if closed == 0 || leb closed (last_evaluated_of symbol timeframe m)
    then (m, scheduled)
    else if ltb (pending_count m) (pending_count m')
    then (m', suc scheduled)
    else (m', scheduled)

-- The clock is read for each symbol and time frame.
unfoldable pub catch_up_frames :
    (Text → ℕ)
    → (Text → Text → ℕ)
    → (Text → Text → Option ℕ)
    → Text
    → List Text
    → EventScheduler × ℕ
    → EventScheduler × ℕ
unfolding catch_up
catch_up_frames hash clock bar_of symbol [] out = out
catch_up_frames hash clock bar_of symbol (timeframe ∷ frames) out =
    catch_up_frames hash clock bar_of symbol frames
      (catch_up hash (clock symbol timeframe) bar_of symbol timeframe out)

unfoldable pub catch_up_symbols :
    (Text → ℕ)
    → (Text → Text → ℕ)
    → (Text → Text → Option ℕ)
    → List Text
    → EventScheduler × ℕ
    → EventScheduler × ℕ
unfolding catch_up_frames
catch_up_symbols hash clock bar_of [] out = out
catch_up_symbols hash clock bar_of (symbol ∷ symbols) out =
    catch_up_symbols hash clock bar_of symbols
      (catch_up_frames hash clock bar_of (upper symbol) out.0.trigger_timeframes out)

unfoldable pub run_catchup :
    (Text → ℕ)
    → (Text → Text → ℕ)
    → (Text → Text → Option ℕ)
    → List Text
    → EventScheduler
    → EventScheduler × ℕ
unfolding catch_up_symbols
run_catchup hash clock bar_of symbols m = catch_up_symbols hash clock bar_of symbols (m, 0)
