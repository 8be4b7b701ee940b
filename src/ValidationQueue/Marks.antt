-- ===== src/ValidationQueue/Marks.antt =====
-- core/validation_queue.py with core/tier_funnel.py: the coins that the funnel has marked as on their
-- way to their backtest, over the turns of the scan loop and of the worker.
use binance_future_bot.Base.{
  ℕ, zero, suc, ◌||◌, ◌+◌, ◌%◌, ◌≡◌, refl, ap, sym, ◌∙◌, true, false, some, List, [], ◌∷◌, arith,
  length, mem, filter, ◌=?◌, text_eq, Bool-cases, Option-cases, inl, inr,
}
use binance_future_bot.Base.Text.{Text, upper, upper_idem}
use binance_future_bot.Base.Dict.{keys, lookup, insert, mem-keys-lookup}
use binance_future_bot.Base.Sets.{discard, mem-set_add, mem-discard}
use binance_future_bot.Assignment.Types.{StrategyScore}
use binance_future_bot.Funnel.{nth, clear_kline_pending, note_normal_score, drop_cooldowns}
use binance_future_bot.Funnel.Types.{Config, TierFunnel}
use binance_future_bot.Funnel.Hot.{
  take_hot_for_rest, find_rest, skips_rest, note_hot_rest_started, release_hot_rest, demote_hot,
  drop_hot, DemoteReason, record_normal_scan, promote_from_normal, promote_ranked, add_hot,
  in_history_demote_cooldown, passes_exceeded, backtest_failed, ranked_scores, display_score,
}
use binance_future_bot.Funnel.Backtest.{
  Progress, note_hot_backtest_pending, on_backtest_failed, pending_record, turn_of, Turn-cases,
}
use binance_future_bot.ValidationQueue.{
  Outcome, stopping, blocked, passed, crashed, deferred, failed, tell_funnel,
}

abbrev pub IsMarked : Text → TierFunnel → Type 0
IsMarked k m = mem k m.pending_hot_rest ≡ true

find_rest-skips :
    (now : ℕ) (m : TierFunnel) (order : List Text) (start rounds offset found : ℕ)
    → find_rest now m order start rounds offset ≡ some found
    → skips_rest now m (nth order ((start + found) % length order)) ≡ false
unfolding find_rest
find_rest-skips now m order start zero offset found h = absurd (cc h)
find_rest-skips now m order start (suc rounds) offset found h =
    elim (Bool-cases (skips_rest now m (nth order ((start + offset) % length order)))) [
      | inr free ↦ let at : offset ≡ found = ground (arith, h, free) in cc (free, at)
      | inl skipped ↦
          find_rest-skips now m order start rounds (offset + 1) found (ground (arith, h, skipped))
    ]

-- A coin whose turn it is: it is in Hot, and not marked.
pub record IsFree (key : Text) (m : TierFunnel) : Type 0 where
  pub unmarked : mem key m.pending_hot_rest ≡ false
  pub there : mem key (keys m.hot) ≡ true

skips_rest-IsFree :
    (now : ℕ) (m : TierFunnel) (key : Text) → skips_rest now m key ≡ false → IsFree key m
unfolding skips_rest
skips_rest-IsFree now m key h = elim (Option-cases (lookup key m.hot)) [
  | inl nothing ↦ absurd (ground (arith, h, nothing))
  | inr (rec, found) ↦ record {
    unmarked = ground (arith, h, found);
    there = mem-keys-lookup key rec m.hot found;
  }
]

pub taken-IsFree :
    (now : ℕ) (m : TierFunnel) (key : Text) → (take_hot_for_rest now m).1 ≡ some key → IsFree key m
unfolding take_hot_for_rest
taken-IsFree now m key h =
    let order = filter (λ s. mem s (keys m.hot)) m.hot_order in
    let n = length order in
    let start = m.hot_rest_index % n in
    elim (Option-cases (find_rest now m order start n 0)) [
      | inl nothing ↦ absurd (ground (arith, h, nothing))
      | inr (offset, found) ↦
          let free = find_rest-skips now m order start n 0 offset found in
          let at : nth order ((start + offset) % n) ≡ key = ground (arith, h, found) in
          skips_rest-IsFree now m key (ap (skips_rest now m) (sym at) ∙ free)
    ]

-- A coin that is marked gets no turn.
pub take_hot_for_rest-unmarked :
    (now : ℕ) (m : TierFunnel) (key : Text)
    → IsMarked key m
    → ¬ ((take_hot_for_rest now m).1 ≡ some key)
take_hot_for_rest-unmarked now m key marked h = cc (marked, (taken-IsFree now m key h).unmarked)

pub take_hot_for_rest-IsMarked :
    (now : ℕ) (k : Text) (m : TierFunnel) → IsMarked k m → IsMarked k (take_hot_for_rest now m).0
unfolding take_hot_for_rest
take_hot_for_rest-IsMarked now k m h =
    let order = filter (λ s. mem s (keys m.hot)) m.hot_order in
    let n = length order in
    let start = m.hot_rest_index % n in
    elim (Option-cases (find_rest now m order start n 0)) [
      | inl nothing ↦ ground (arith, h, nothing)
      | inr (offset, found) ↦
          let grown = mem-set_add (nth order ((start + offset) % n)) k m.pending_hot_rest in
          ground (arith, h, found, grown)
    ]

pub note_hot_rest_started-IsMarked :
    (symbol k : Text) (m : TierFunnel)
    → (mem k m.pending_hot_rest || upper symbol =? k) ≡ true
    → IsMarked k (note_hot_rest_started symbol m)
unfolding note_hot_rest_started
note_hot_rest_started-IsMarked symbol k m h =
    ground (arith, h, mem-set_add (upper symbol) k m.pending_hot_rest)

pub release_hot_rest-IsMarked :
    (symbol k : Text) (m : TierFunnel)
    → (upper symbol =? k) ≡ false
    → IsMarked k m
    → IsMarked k (release_hot_rest symbol m)
unfolding release_hot_rest
release_hot_rest-IsMarked symbol k m differ h =
    ground (arith, h, differ, mem-discard (upper symbol) k m.pending_hot_rest)

demote_hot-IsMarked :
    (c : Config) (now : ℕ) (symbol k : Text) (reason : DemoteReason) (m : TierFunnel)
    → (upper symbol =? k) ≡ false
    → IsMarked k m
    → IsMarked k (demote_hot c now symbol reason m)
unfolding demote_hot drop_hot
demote_hot-IsMarked c now symbol k reason m differ h =
    ground (arith, h, differ, mem-discard (upper symbol) k m.pending_hot_rest)

pub on_backtest_failed-IsMarked :
    (c : Config) (now : ℕ) (symbol reason k : Text) (m : TierFunnel)
    → (upper symbol =? k) ≡ false
    → IsMarked k m
    → IsMarked k (on_backtest_failed c now symbol reason m)
unfolding on_backtest_failed
on_backtest_failed-IsMarked c now symbol reason k m differ h =
    let key = upper symbol in
    let m' : TierFunnel = record m { pending_hot_rest = discard key m.pending_hot_rest } in
    let cleared : IsMarked k m' = ground (arith, h, differ, mem-discard key k m.pending_hot_rest) in
    let differ' : (upper key =? k) ≡ false = rw (upper_idem symbol) differ in
    let out = demote_hot-IsMarked c now key k (backtest_failed reason) m' differ' cleared in
    ground (arith, out, cleared)

note_hot_backtest_pending-IsMarked :
    (c : Config) (now : ℕ) (symbol k : Text) (p : Progress) (m : TierFunnel)
    → (upper symbol =? k) ≡ false
    → IsMarked k m
    → IsMarked k (note_hot_backtest_pending c now symbol p m)
unfolding note_hot_backtest_pending
note_hot_backtest_pending-IsMarked c now symbol k p m differ h =
    let key = upper symbol in
    let m' : TierFunnel = record m { pending_hot_rest = discard key m.pending_hot_rest } in
    let cleared : IsMarked k m' = ground (arith, h, differ, mem-discard key k m.pending_hot_rest) in
    let differ' : (upper key =? k) ≡ false = rw (upper_idem symbol) differ in
    elim (Option-cases (lookup key m.hot)) [
      | inl nothing ↦ ground (arith, cleared, nothing)
      | inr (before, found) ↦
          let rec = pending_record c now p before in
          let next : TierFunnel = record m' { hot = insert key rec m.hot } in
          let out = demote_hot-IsMarked c now key k passes_exceeded next differ' cleared in
          elim (Turn-cases (turn_of c before rec)) [
            | inl on ↦ ground (arith, cleared, found, on)
            | inr (inl extra) ↦ ground (arith, cleared, found, extra)
            | inr (inr end) ↦ ground (arith, cleared, found, end, out)
          ]
    ]

-- What the worker tells the funnel of one coin leaves another's mark.
pub tell_funnel-IsMarked :
    (c : Config) (now : ℕ) (symbol k : Text) (outcome : Outcome) (m : TierFunnel)
    → (upper symbol =? k) ≡ false
    → IsMarked k m
    → IsMarked k (tell_funnel c now symbol outcome m)
unfolding tell_funnel
tell_funnel-IsMarked c now symbol k stopping m differ h = h
tell_funnel-IsMarked c now symbol k blocked m differ h =
    release_hot_rest-IsMarked symbol k m differ h
tell_funnel-IsMarked c now symbol k passed m differ h = h
tell_funnel-IsMarked c now symbol k crashed m differ h =
    on_backtest_failed-IsMarked c now symbol _ k m differ h
tell_funnel-IsMarked c now symbol k (deferred p) m differ h =
    note_hot_backtest_pending-IsMarked c now symbol k p m differ h
tell_funnel-IsMarked c now symbol k (failed reason) m differ h =
    on_backtest_failed-IsMarked c now symbol _ k m differ h

promote_ranked-marks :
    (c : Config) (key : Text) (rows : List StrategyScore) (m : TierFunnel)
    → (promote_ranked c key rows m).0.pending_hot_rest ≡ m.pending_hot_rest
unfolding promote_ranked add_hot
promote_ranked-marks c key [] m = refl
promote_ranked-marks c key (best ∷ others) m = ground arith

promote_from_normal-marks :
    (c : Config) (now : ℕ) (symbol : Text) (scores : List StrategyScore) (m : TierFunnel)
    → (promote_from_normal c now symbol scores m).0.pending_hot_rest ≡ m.pending_hot_rest
unfolding promote_from_normal in_history_demote_cooldown drop_cooldowns
promote_from_normal-marks c now symbol scores m =
    ground
      (arith, promote_ranked-marks c (upper symbol) (ranked_scores scores) (drop_cooldowns now m))

note_normal_score-marks :
    (symbol : Text) (score : ℕ) (m : TierFunnel)
    → (note_normal_score symbol score m).pending_hot_rest ≡ m.pending_hot_rest
unfolding note_normal_score
note_normal_score-marks symbol score m = ground arith

-- A scan of the Normal tier leaves all marks.
pub record_normal_scan-marks :
    (c : Config) (now : ℕ) (symbol : Text) (scores : List StrategyScore) (m : TierFunnel)
    → (record_normal_scan c now symbol scores m).0.pending_hot_rest ≡ m.pending_hot_rest
unfolding record_normal_scan clear_kline_pending
record_normal_scan-marks c now symbol [] m =
    note_normal_score-marks symbol (display_score []) (clear_kline_pending symbol m)
record_normal_scan-marks c now symbol (row ∷ rows) m =
    let score = display_score (row ∷ rows) in
    promote_from_normal-marks c now symbol (row ∷ rows)
      (note_normal_score symbol score (clear_kline_pending symbol m))
    ∙ note_normal_score-marks symbol score (clear_kline_pending symbol m)
