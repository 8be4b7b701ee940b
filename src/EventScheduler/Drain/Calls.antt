-- ===== src/EventScheduler/Drain/Calls.antt =====
-- core/event_scheduler.py: the queue over any sequence of its operations.
use binance_future_bot.Base.{
  ℕ, suc, ◌+◌, ◌*◌, ◌%◌, ◌≡◌, refl, ap, ◌&&◌, ◌||◌, not, Option, none, some, List, [], ◌∷◌, ◌++◌,
  arith, ltb, leb, ◌==◌, if◌then◌else◌, filter, take, Bool-cases, inl, inr, mem, text_eq, nat_eq,
  pair_eq,
}
use binance_future_bot.Base.Text.{Text, upper}
use binance_future_bot.Base.Dict.{keys, insert}
use binance_future_bot.Base.Sort.{insert_by}
use binance_future_bot.EventScheduler.{
  Item, CandleCloseEvent, EventScheduler, Source, Bar, from_ws, from_catchup, sooner, push,
  drain_from, drain_due, new_scheduler, on_candle_close, purge_seen, requeue, mark_evaluated,
  run_catchup, catch_up_symbols, catch_up_frames, catch_up, last_evaluated_of,
}
use binance_future_bot.EventScheduler.Drain.{
  Sorted, is_due, insert_by-Sorted, drain_from-take, drain_from-append, drain_from-Sorted,
}

pub data Call : Type 0 where
  closed : ℕ → Text → Text → ℕ → Call
  drained : ℕ → ℕ → Call
  requeued : ℕ → CandleCloseEvent → ℕ → Call
  evaluated : Text → Text → ℕ → Call
  caught_up : (Text → Text → ℕ) → (Text → Text → Option ℕ) → List Text → Call

-- The queue after a call, and the items that it has handed out so far.
unfoldable pub after_call :
    (Text → ℕ) → Call → EventScheduler × List Item → EventScheduler × List Item
after_call hash (closed now symbol timeframe bar) (m, out) =
    (on_candle_close hash now symbol timeframe bar from_ws m, out)
after_call hash (drained limit now) (m, out) =
    ((drain_due limit now m).0, out ++ (drain_due limit now m).1)
after_call hash (requeued now event delay) (m, out) = (requeue now event delay m, out)
after_call hash (evaluated symbol timeframe bar) (m, out) =
    (mark_evaluated symbol timeframe bar m, out)
after_call hash (caught_up clock bar_of symbols) (m, out) =
    ((run_catchup hash clock bar_of symbols m).0, out)

unfoldable pub after_calls :
    (Text → ℕ) → List Call → EventScheduler × List Item → EventScheduler × List Item
unfolding after_call
after_calls hash [] s = s
after_calls hash (call ∷ calls) s = after_calls hash calls (after_call hash call s)

-- How often the number stands in the list.
unfoldable pub tally : ℕ → List Item → ℕ
tally k [] = 0
tally k (x ∷ l) = (if x.seq == k then 1 else 0) + tally k l

tally-append : (k : ℕ) (l l' : List Item) → tally k (l ++ l') ≡ tally k l + tally k l'
unfolding tally
tally-append k [] l' = omega arith
tally-append k (x ∷ l) l' = omega (arith, tally-append k l l')

tally-insert_by :
    (k : ℕ) (x : Item) (l : List Item) → tally k (insert_by sooner x l) ≡ tally k (x ∷ l)
unfolding tally insert_by
tally-insert_by k x [] = refl
tally-insert_by k x (y ∷ l) = ground (arith, tally-insert_by k x l)

-- The heap is in order, and each number given so far is once on the heap or handed out.
pub record Kept (heap : List Item) (seq : ℕ) (out : List Item) : Type 0 where
  pub sorted : Sorted heap
  pub once : (k : ℕ) → tally k out + tally k heap ≡ (if ltb 0 k && leb k seq then 1 else 0)

Kept-of :
    {heap heap' : List Item} {seq seq' : ℕ} {out : List Item}
    → heap' ≡ heap
    → seq' ≡ seq
    → Kept heap seq out
    → Kept heap' seq' out
Kept-of e f k = rw (e, f) k

push-Kept :
    (due : ℕ) (event : CandleCloseEvent) (m : EventScheduler) (out : List Item)
    → Kept m.heap m.seq out
    → Kept (push due event m).heap (push due event m).seq out
unfolding push tally
push-Kept due event m out k =
    let x : Item = record { due = due; seq = suc m.seq; event = event } in
    record {
      sorted = insert_by-Sorted x m.heap k.sorted;
      once = λ j. ground (arith, tally-insert_by j x m.heap, k.once j);
    }

on_candle_close-Kept :
    (hash : Text → ℕ) (now : ℕ) (symbol timeframe : Text) (bar : ℕ) (source : Source)
    (m : EventScheduler) (out : List Item)
    → Kept m.heap m.seq out
    → let m' = on_candle_close hash now symbol timeframe bar source m in Kept m'.heap m'.seq out
unfolding on_candle_close
on_candle_close-Kept hash now symbol timeframe bar source m out k =
    let key : Bar = (upper symbol, (timeframe, bar)) in
    elim (Bool-cases (not (mem timeframe m.trigger_timeframes) || bar == 0)) [
      | inl refused ↦ Kept-of (ground arith) (ground arith) k
      | inr taken ↦ elim (Bool-cases (mem key (keys m.seen))) [
        | inl known ↦ Kept-of (ground arith) (ground arith) k
        | inr new ↦
            let due = now + (hash (upper symbol) % 1000) * m.stagger in
            let event : CandleCloseEvent = record {
              symbol = upper symbol;
              timeframe = timeframe;
              bar_open = bar;
              source = source;
              due_at = due;
            } in
            let m' : EventScheduler = record m { seen = purge_seen now (insert key now m.seen) } in
            Kept-of (ground arith) (ground arith) (push-Kept due event m' out k)
      ]
    ]

catch_up-Kept :
    (hash : Text → ℕ) (now : ℕ) (bar_of : Text → Text → Option ℕ) (symbol timeframe : Text)
    (s : EventScheduler × ℕ) (out : List Item)
    → Kept s.0.heap s.0.seq out
    → let s' = catch_up hash now bar_of symbol timeframe s in Kept s'.0.heap s'.0.seq out
unfolding catch_up
catch_up-Kept hash now bar_of symbol timeframe (m, n) out k =
    let bar : ℕ = elim (bar_of symbol timeframe) [ none ↦ 0 | some bar ↦ bar ] in
    elim (Bool-cases (bar == 0 || leb bar (last_evaluated_of symbol timeframe m))) [
      | inl skipped ↦ Kept-of (ground arith) (ground arith) k
      | inr late ↦
          Kept-of (ground arith) (ground arith)
            (on_candle_close-Kept hash now symbol timeframe bar from_catchup m out k)
    ]

catch_up_frames-Kept :
    (hash : Text → ℕ) (clock : Text → Text → ℕ) (bar_of : Text → Text → Option ℕ) (symbol : Text)
    (frames : List Text) (s : EventScheduler × ℕ) (out : List Item)
    → Kept s.0.heap s.0.seq out
    → let s' = catch_up_frames hash clock bar_of symbol frames s in Kept s'.0.heap s'.0.seq out
unfolding catch_up_frames
catch_up_frames-Kept hash clock bar_of symbol [] s out k = k
catch_up_frames-Kept hash clock bar_of symbol (timeframe ∷ frames) s out k =
    catch_up_frames-Kept hash clock bar_of symbol frames
      (catch_up hash (clock symbol timeframe) bar_of symbol timeframe s) out
      (catch_up-Kept hash (clock symbol timeframe) bar_of symbol timeframe s out k)

catch_up_symbols-Kept :
    (hash : Text → ℕ) (clock : Text → Text → ℕ) (bar_of : Text → Text → Option ℕ)
    (symbols : List Text) (s : EventScheduler × ℕ) (out : List Item)
    → Kept s.0.heap s.0.seq out
    → let s' = catch_up_symbols hash clock bar_of symbols s in Kept s'.0.heap s'.0.seq out
unfolding catch_up_symbols
catch_up_symbols-Kept hash clock bar_of [] s out k = k
catch_up_symbols-Kept hash clock bar_of (symbol ∷ symbols) s out k =
    catch_up_symbols-Kept hash clock bar_of symbols
      (catch_up_frames hash clock bar_of (upper symbol) s.0.trigger_timeframes s) out
      (catch_up_frames-Kept hash clock bar_of (upper symbol) s.0.trigger_timeframes s out k)

after_call-Kept :
    (hash : Text → ℕ) (call : Call) (m : EventScheduler) (out : List Item)
    → Kept m.heap m.seq out
    → let s = after_call hash call (m, out) in Kept s.0.heap s.0.seq s.1
unfolding after_call drain_due requeue mark_evaluated run_catchup
after_call-Kept hash (closed now symbol timeframe bar) m out k =
    on_candle_close-Kept hash now symbol timeframe bar from_ws m out k
after_call-Kept hash (drained limit now) m out k =
    let d = drain_from limit now m.heap in
    record {
      sorted = drain_from-Sorted limit now m.heap k.sorted;
      once = λ j.
          let whole : tally j (d.0 ++ d.1) ≡ tally j m.heap =
            ap (tally j) (drain_from-append limit now m.heap) in
          omega (arith, k.once j, whole, tally-append j d.0 d.1, tally-append j out d.0);
    }
after_call-Kept hash (requeued now event delay) m out k =
    let key : Bar = (upper event.symbol, (event.timeframe, event.bar_open)) in
    push-Kept (now + delay) event (record m { seen = insert key now m.seen }) out k
after_call-Kept hash (evaluated symbol timeframe bar) m out k =
    Kept-of (ground arith) (ground arith) k
after_call-Kept hash (caught_up clock bar_of symbols) m out k =
    catch_up_symbols-Kept hash clock bar_of symbols (m, 0) out k

after_calls_from-Kept :
    (hash : Text → ℕ) (calls : List Call) (m : EventScheduler) (out : List Item)
    → Kept m.heap m.seq out
    → let s = after_calls hash calls (m, out) in Kept s.0.heap s.0.seq s.1
unfolding after_calls
after_calls_from-Kept hash [] m out k = k
after_calls_from-Kept hash (call ∷ calls) m out k =
    let s = after_call hash call (m, out) in
    after_calls_from-Kept hash calls s.0 s.1 (after_call-Kept hash call m out k)

new_scheduler-Kept : Kept [] 0 []
unfolding tally
new_scheduler-Kept = record { sorted = tt; once = λ k. ground arith }

-- From a new queue on, after any calls: each event that was put on the heap, by a close, a catch-up
-- or as a requeued event, is exactly once either handed out or still on the heap. Events are told
-- apart by the numbers 1, 2, … that they get.
pub handed_out_once :
    (hash : Text → ℕ) (timeframes : List Text) (stagger : ℕ) (calls : List Call) (k : ℕ)
    → tally k (after_calls hash calls (new_scheduler timeframes stagger, [])).1
        + tally k (after_calls hash calls (new_scheduler timeframes stagger, [])).0.heap
      ≡ (if ltb 0 k && leb k (after_calls hash calls (new_scheduler timeframes stagger, [])).0.seq
          then 1
          else 0)
handed_out_once hash timeframes stagger calls k =
    (after_calls_from-Kept hash calls (new_scheduler timeframes stagger) [] new_scheduler-Kept).once
      k

-- From a new queue on, after any calls: a drain stops at the first event that is not due, and yet
-- gives what a scan of the whole heap would give, the first `limit` of its due events.
pub drain_due-take :
    (hash : Text → ℕ) (timeframes : List Text) (stagger : ℕ) (calls : List Call) (limit now : ℕ)
    → (drain_due limit now (after_calls hash calls (new_scheduler timeframes stagger, [])).0).1
      ≡ take limit (
          filter
            (is_due now)
            (after_calls hash calls (new_scheduler timeframes stagger, [])).0.heap)
unfolding drain_due
drain_due-take hash timeframes stagger calls limit now =
    let s = after_calls hash calls (new_scheduler timeframes stagger, []) in
    drain_from-take limit now s.0.heap
      (after_calls_from-Kept hash calls (new_scheduler timeframes stagger) []
        new_scheduler-Kept).sorted
