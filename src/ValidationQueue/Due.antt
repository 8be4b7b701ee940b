-- ===== src/ValidationQueue/Due.antt =====
-- pipeline/event_scan_orchestrator.py, enqueue_due_hot_rest: what a turn of the scan loop does to the
-- marks of the funnel and to the pending symbols.
use binance_future_bot.Base.{
  ℕ, ◌≡◌, ap, sym, ◌∙◌, true, false, some, List, arith, mem, =?_iff, ◌=?◌, text_eq, Bool-cases,
  Option-cases, inl, inr,
}
use binance_future_bot.Base.Text.{Text, upper}
use binance_future_bot.Base.Sets.{mem-set_add}
use binance_future_bot.Funnel.Types.{TierFunnel}
use binance_future_bot.Funnel.Hot.{take_hot_for_rest}
use binance_future_bot.Funnel.Tiers.Moves.{IsValid}
use binance_future_bot.ValidationQueue.Held.{drop_oldest-absent}
use binance_future_bot.ValidationQueue.{
  QueueConfig, Validator, enqueue, drop_oldest, enqueue_hot_backtest, enqueue_due_hot_rest,
}
use binance_future_bot.ValidationQueue.Marks.{
  IsMarked, taken-IsFree, take_hot_for_rest-IsMarked, note_hot_rest_started-IsMarked,
  release_hot_rest-IsMarked,
}

enqueue-absent :
    (q : QueueConfig) (now : ℕ) (raw k : Text) (v : Validator)
    → mem k v.pending ≡ false
    → (upper raw =? k) ≡ false
    → mem k (enqueue q now raw v).0.pending ≡ false
unfolding enqueue
enqueue-absent q now raw k v absent differ =
    let dropped = drop_oldest-absent v k absent in
    let added = mem-set_add (upper raw) k v.pending in
    let added' = mem-set_add (upper raw) k (drop_oldest v).pending in
    ground (arith, absent, differ, dropped, added, added')

enqueue-refused :
    (q : QueueConfig) (now : ℕ) (raw : Text) (v : Validator)
    → (enqueue q now raw v).1 ≡ false
    → (enqueue q now raw v).0 ≡ v
unfolding enqueue
enqueue-refused q now raw v no_put = ground (arith, no_put)

-- The queue takes a coin, or refuses it: another coin's mark stays.
enqueue_hot_backtest-IsMarked :
    (q : QueueConfig) (now : ℕ) (symbol k : Text) (v : Validator) (m : TierFunnel)
    → (upper symbol =? k) ≡ false
    → IsMarked k m
    → IsMarked k (enqueue_hot_backtest q now symbol (v, m)).1
unfolding enqueue_hot_backtest
enqueue_hot_backtest-IsMarked q now symbol k v m differ h =
    let noted = note_hot_rest_started-IsMarked symbol k m (ground (arith, h)) in
    let released = release_hot_rest-IsMarked symbol k m differ h in
    elim (Bool-cases (enqueue q now symbol v).1) [
      | inl put ↦ ground (arith, put, noted)
      | inr refused ↦ ground (arith, refused, released)
    ]

enqueue_hot_backtest-pending :
    (q : QueueConfig) (now : ℕ) (symbol : Text) (v : Validator) (m : TierFunnel)
    → (enqueue_hot_backtest q now symbol (v, m)).0 ≡ (enqueue q now symbol v).0
unfolding enqueue_hot_backtest
enqueue_hot_backtest-pending q now symbol v m = ground arith

enqueue_hot_backtest-new :
    (q : QueueConfig) (now : ℕ) (symbol k : Text) (v : Validator) (m : TierFunnel)
    → mem k v.pending ≡ false
    → mem k (enqueue_hot_backtest q now symbol (v, m)).0.pending ≡ true
    → IsMarked k (enqueue_hot_backtest q now symbol (v, m)).1
unfolding enqueue_hot_backtest
enqueue_hot_backtest-new q now symbol k v m absent there =
    let at =
      ap (λ (w : Validator). mem k w.pending) (enqueue_hot_backtest-pending q now symbol v m) in
    let there' : mem k (enqueue q now symbol v).0.pending ≡ true = sym at ∙ there in
    elim (Bool-cases (enqueue q now symbol v).1) [
      | inr refused ↦
          let same =
            ap (λ (w : Validator). mem k w.pending) (enqueue-refused q now symbol v refused) in
          absurd (cc (same, absent, there'))
      | inl put ↦ elim (Bool-cases (upper symbol =? k)) [
        | inl is ↦
            let noted = note_hot_rest_started-IsMarked symbol k m (ground (arith, is)) in
            ground (arith, put, noted)
        | inr differ ↦ absurd (cc (enqueue-absent q now symbol k v absent differ, there'))
      ]
    ]

-- A turn of the scan loop.
pub record DueMarks (k : Text) (s t : Validator × TierFunnel) : Type 0 where
  pub kept : IsMarked k s.1 → IsMarked k t.1
  pub new : mem k s.0.pending ≡ false → mem k t.0.pending ≡ true → IsMarked k t.1
  pub not_put : IsMarked k s.1 → mem k s.0.pending ≡ false → mem k t.0.pending ≡ false

DueMarks-of : {k : Text} {s t u : Validator × TierFunnel} → u ≡ t → DueMarks k s t → DueMarks k s u
DueMarks-of e d = rw e d

taken-other :
    {left : List Text} (now : ℕ) (k symbol : Text) (m : TierFunnel)
    → IsValid left m
    → (take_hot_for_rest now m).1 ≡ some symbol
    → IsMarked k m
    → (upper symbol =? k) ≡ false
taken-other now k symbol m valid taken h =
    let free = taken-IsFree now m symbol taken in
    let up = valid.in_upper symbol free.there in
    let unmarked = free.unmarked in
    elim (Bool-cases (symbol =? k)) [
      | inl same ↦ let at : symbol ≡ k = (=?_iff symbol k).0 same in absurd (cc (at, unmarked, h))
      | inr differ ↦ rw up differ
    ]

-- It leaves the marks of all coins, marks the coin that it puts in the queue, and puts in none that
-- is marked.
pub due-DueMarks :
    {left : List Text} (q : QueueConfig) (now : ℕ) (k : Text) (v : Validator) (m : TierFunnel)
    → IsValid left m
    → DueMarks k (v, m) (enqueue_due_hot_rest q now (v, m))
unfolding enqueue_due_hot_rest
due-DueMarks q now k v m valid =
    let m' = (take_hot_for_rest now m).0 in
    elim (Option-cases (take_hot_for_rest now m).1) [
      | inl nothing ↦
          let same : enqueue_due_hot_rest q now (v, m) ≡ (v, m') = ground (arith, nothing) in
          DueMarks-of same (record {
            kept = λ h. take_hot_for_rest-IsMarked now k m h;
            new = λ absent there. absurd (cc (absent, there));
            not_put = λ h absent. absent;
          })
      | inr (symbol, taken) ↦
          let same : enqueue_due_hot_rest q now (v, m) ≡ enqueue_hot_backtest q now symbol (v, m') =
            ground (arith, taken) in
          DueMarks-of same (record {
            kept = λ h.
                enqueue_hot_backtest-IsMarked q now symbol k v m'
                  (taken-other now k symbol m valid taken h) (take_hot_for_rest-IsMarked now k m h);
            new = λ absent there. enqueue_hot_backtest-new q now symbol k v m' absent there;
            not_put = λ h absent.
                ap (λ (w : Validator). mem k w.pending)
                  (enqueue_hot_backtest-pending q now symbol v m')
                ∙ enqueue-absent q now symbol k v absent (taken-other now k symbol m valid taken h);
          })
    ]
