-- ===== src/Lib.antt =====
-- Verification library for the trading bot: the parts that decide whether an order, a REST
-- request, a scan or an alert may go out, translated from the Python sources and proved.
--
-- Files and code. Each module names its source in its first line; paths are from the repository's
-- root.
-- Base and its children hold shared lists, dicts (insertion-ordered association lists), texts
-- (lists of code points) and rolling windows. Settings is config.py with its clamps.
-- RateGuard is rest_rate_guard.py: Types the weights, lanes and thresholds, Tracker the state of
-- RestUsageTracker with its decay, Calls one function for each method, Runs the sequences of
-- calls. TokenBucket and LanePacer are RestTokenBucket and ComponentRestPacer of the same file.
-- RestBudget is core/rest_budget.py, Governor core/execution_governor.py, MinuteClock
-- core/minute_clock.py.
-- Assignment is core/assignment_manager.py with the promotion test of core/scoring_engine.py.
-- Rotation is core/symbol_rotation_manager.py: Rotation itself the evaluated memory, Queues the
-- body of build_scan_slices. ScanQueue is core/scan_priority_queue.py, which calls Rotation.
-- EntryMutex is core/entry_in_flight_mutex.py and core/trade_close_mutex.py. ConflictGuard is
-- core/symbol_conflict_guard.py. CloseNotice is core/close_notification_guard.py. Controller is
-- bot_controller.py, and Reconnect the backoff of ws_reconnect.py. EventScheduler is
-- core/event_scheduler.py. Arbitrator is core/candidate_arbitrator.py. ExecutionLedger is
-- core/execution_ledger.py. ExitCoordinator is exit_coordinator.py, with Alone for calls one after
-- the other and Together for two that interleave.
-- Funnel is core/tier_funnel.py: Types its state, Funnel itself the Normal tier, Hot and Backtest
-- the Hot tier, Super the Super tier and the day window, Calls the public operations as one type,
-- Tiers what holds of the Hot and Super tiers. ValidationQueue is core/validation_queue.py, whose
-- worker calls the funnel (Turns holds the turns of both on one state, Marks and Due what they do
-- to the funnel's marks), with the two methods of pipeline/event_scan_orchestrator.py that put
-- coins in. The funnel takes its turns from PaceWindow, core/pace_clock.py, and its floors from
-- ScoreRanges, core/strategy_score_ranges.py.
-- Tests holds concrete runs.
--
-- How the code is read. A method is a function from the old state to the new state and the answer.
-- A method that runs under its lock is one step and reads the clock once; RestBudget.try_acquire
-- takes its lock twice, and runs through the steps of acquire_step, which two threads may
-- interleave. EntryMutex is a step relation over any interleaving of threads, ExitCoordinator
-- interleaves single system calls, and the worker of ValidationQueue takes its item and finishes
-- its turn in two steps. Clocks are natural numbers of milliseconds, an argument of each call; a
-- theorem says so where it needs that the clock does not go back. Subtraction stops at 0, and is
-- used where the source clamps or compares in the same way. Fractions such as 0.85 are taken
-- exactly, scores and rates are whole numbers of a stated unit, so rounding of floats is not
-- modelled. Symbols and ids are ASCII. Dict keys keep their insertion order, and sorting is
-- stable.
-- All loops are recursion on a list or a count, so no fuel is needed, but for claim_exit of
-- ExitCoordinator, which calls itself: it is run for seven system calls, which are shown to be
-- enough. Random lifetimes, the exchange's and the database's answers and the file system's
-- refusals are arguments; in ExitCoordinator and ExecutionLedger the file system refuses nothing.
--
-- Not modelled: the payloads, digests and messages of the funnel, the calls of the Binance client,
-- threads and processes, the database, Telegram, the indicators and strategies on data frames, log
-- lines, and the blocking acquire of RestTokenBucket, which sleeps.
pub mod Base
pub mod Settings
pub mod Assignment
pub mod Arbitrator
pub mod Governor
pub mod MinuteClock
pub mod Rotation
pub mod ScanQueue
pub mod EntryMutex
pub mod ExitCoordinator
pub mod ExecutionLedger
pub mod EventScheduler
pub mod TokenBucket
pub mod LanePacer
pub mod CloseNotice
pub mod ConflictGuard
pub mod Controller
pub mod Reconnect
pub mod PaceWindow
pub mod ScoreRanges
pub mod Funnel
pub mod ValidationQueue
pub mod RestBudget
pub mod RateGuard
pub mod Tests
