-- ===== src/TokenBucket/Flow.antt =====
-- rest_rate_guard.py, `RestTokenBucket`: how much passes, and that nothing passes a hard stop
-- before it is over or released.
use native.Mathlib.Nat.{add-mul}
use binance_future_bot.Base.{
  ℕ, suc, ◌+◌, ◌-◌, ◌*◌, ◌≤◌, ◌<◌, ◌≡◌, refl, ◌∙◌, sym, subst, ap, true, List, [], ◌∷◌, arith, ltb,
  if◌then◌else◌, Bool-cases, inl, inr,
}
use binance_future_bot.TokenBucket.{
  RestTokenBucket, refill, trigger_hard_stop, clear_hard_stop, cost, try_acquire,
}

-- A call, with the clock it reads. A round of the loop of `acquire` takes weight as `try_acquire`
-- does, and sleeps when it takes none.
pub data Call : Type 0 where
  take_weight : (now weight : ℕ) → Call
  hard_stop : (now pause : ℕ) → Call
  cleared : (now : ℕ) → Call

abbrev pub time_of : Call → ℕ
time_of (take_weight now weight) = now
time_of (hard_stop now pause) = now
time_of (cleared now) = now

unfoldable pub after_call : Call → RestTokenBucket → RestTokenBucket
after_call (take_weight now weight) b = (try_acquire now weight b).0
after_call (hard_stop now pause) b = trigger_hard_stop now pause b
after_call (cleared now) b = clear_hard_stop now b

-- What a call lets pass.
unfoldable pub passed : Call → RestTokenBucket → ℕ
passed (take_weight now weight) b = if (try_acquire now weight b).1 then cost weight else 0
passed (hard_stop now pause) b = 0
passed (cleared now) b = 0

-- What a sequence of calls lets pass.
unfoldable pub flow : List Call → RestTokenBucket → ℕ
unfolding after_call passed
flow [] b = 0
flow (c ∷ calls) b = passed c b + flow calls (after_call c b)

-- All times stand between `low` and `high`.
abbrev pub During : ℕ → ℕ → List Call → Type 0
During low high [] = Unit
During low high (c ∷ calls) = (low ≤ time_of c) × (time_of c ≤ high) × During low high calls

later_product : (a b rate : ℕ) → a ≤ b → b * rate ≡ a * rate + (b - a) * rate
later_product a b rate h =
    ap (λ n. n * rate) (let e : b ≡ a + (b - a) = omega arith in e) ∙ add-mul a (b - a) rate

-- The times never go back, and stand between `low` and `high`.
abbrev pub Rising : ℕ → ℕ → List Call → Type 0
Rising low high [] = low ≤ high
Rising low high (c ∷ calls) = (low ≤ time_of c) × Rising (time_of c) high calls

Rising-le : (low high : ℕ) (calls : List Call) → Rising low high calls → low ≤ high
Rising-le low high [] r = r
Rising-le low high (c ∷ calls) r = omega (arith, r.0, Rising-le (time_of c) high calls r.1)

-- How much a release of a hard stop adds: it fills the bucket.
abbrev pub filled_by : Call → RestTokenBucket → ℕ
filled_by (take_weight now weight) b = 0
filled_by (hard_stop now pause) b = 0
filled_by (cleared now) b = b.capacity

abbrev pub releases : List Call → ℕ
releases [] = 0
releases (cleared now ∷ calls) = suc (releases calls)
releases (c ∷ calls) = releases calls

-- One call: what passes and what is left were there, came in since the last refill, or were filled
-- in by a release.
call-le :
    (c : Call) (b : RestTokenBucket)
    → b.last_refill ≤ time_of c
    → (passed c b + (after_call c b).tokens + b.last_refill * b.refill_rate
        ≤ b.tokens + (after_call c b).last_refill * b.refill_rate + filled_by c b)
      × ((after_call c b).last_refill ≤ time_of c)
      × ((after_call c b).refill_rate ≡ b.refill_rate)
      × ((after_call c b).capacity ≡ b.capacity)
unfolding passed after_call try_acquire trigger_hard_stop clear_hard_stop refill
call-le (hard_stop now pause) b k = (omega arith, k, refl, refl)
call-le (cleared now) b k =
    let product = later_product b.last_refill now b.refill_rate k in
    (omega (arith, product), omega arith, refl, refl)
call-le (take_weight now weight) b k = elim (Bool-cases (ltb 0 (now - b.last_refill))) [
  | inl on ↦
      let product = later_product b.last_refill now b.refill_rate k in
      (ground arith, ground arith, ground arith, ground arith)
  | inr same ↦ (ground arith, ground arith, ground arith, ground arith)
]

releases-cons :
    (c : Call) (calls : List Call) (b : RestTokenBucket)
    → releases (c ∷ calls) * b.capacity ≡ filled_by c b + releases calls * b.capacity
releases-cons (take_weight now weight) calls b = omega arith
releases-cons (hard_stop now pause) calls b = omega arith
releases-cons (cleared now) calls b =
    let split = add-mul 1 (releases calls) b.capacity in
    let one : suc (releases calls) ≡ 1 + releases calls = omega arith in
    let product = ap (λ n. n * b.capacity) one in omega (arith, split, product)

flow_from-le :
    (calls : List Call) (b : RestTokenBucket) (low high : ℕ)
    → b.last_refill ≤ low
    → Rising low high calls
    → flow calls b ≤ b.tokens + (high - b.last_refill) * b.refill_rate + releases calls * b.capacity
unfolding flow
flow_from-le [] b low high k r = omega arith
flow_from-le (c ∷ calls) b low high k r =
    let (step, last, rate, room) = call-le c b (omega (arith, k, r.0)) in
    let b' = after_call c b in
    let rest = flow_from-le calls b' (time_of c) high last r.1 in
    let end = Rising-le (time_of c) high calls r.1 in
    let here = later_product b.last_refill high b.refill_rate (omega (arith, k, r.0, end)) in
    let there = later_product b'.last_refill high b'.refill_rate (omega (arith, last, end)) in
    let same_last = ap (λ n. b'.last_refill * n) rate in
    let same_high = ap (λ n. high * n) rate in
    let same_room = ap (λ n. releases calls * n) room in
    let filled = releases-cons c calls b in omega arith

-- For calls at times that never go back, hard stops and their releases among them: what they let
-- pass is at most what the bucket holds, what the refill adds from the last refill to `high`, and
-- the bucket's capacity for each release.
pub flow-le :
    (calls : List Call) (b : RestTokenBucket) (high : ℕ)
    → Rising b.last_refill high calls
    → flow calls b ≤ b.tokens + (high - b.last_refill) * b.refill_rate + releases calls * b.capacity
unfolding flow
flow-le calls b high r = flow_from-le calls b b.last_refill high (omega arith) r

stopped-flow :
    (calls : List Call) (b : RestTokenBucket) (low high : ℕ)
    → During low high calls
    → releases calls ≡ 0
    → high < b.hard_stop_until
    → flow calls b ≡ 0
unfolding flow passed after_call try_acquire trigger_hard_stop
stopped-flow [] b low high d n k = refl
stopped-flow (hard_stop now pause ∷ calls) b low high d n k =
    let rest = stopped-flow calls (trigger_hard_stop now pause b) low high d.2 n (omega arith) in
    omega arith
stopped-flow (cleared now ∷ calls) b low high d n k = absurd (omega (arith, n))
stopped-flow (take_weight now weight ∷ calls) b low high d n k =
    let soon : ltb now b.hard_stop_until ≡ true = ground arith in
    let c = take_weight now weight in
    let nothing : passed c b ≡ 0 = rw (soon, passed, try_acquire) refl in
    let same : after_call c b ≡ b = rw (soon, after_call, try_acquire) refl in
    let rest : flow calls (after_call c b) ≡ 0 =
      subst (λ x. flow calls x ≡ 0) (sym same) (stopped-flow calls b low high d.2 n k) in
    omega arith

-- After a hard stop of `pause` milliseconds, whatever calls follow before it is over, except for a
-- release by `clear_hard_stop`, nothing passes.
pub trigger_hard_stop-flow :
    (now pause : ℕ) (b : RestTokenBucket) (calls : List Call) (high : ℕ)
    → During now high calls
    → releases calls ≡ 0
    → high < now + pause
    → flow calls (trigger_hard_stop now pause b) ≡ 0
unfolding trigger_hard_stop
trigger_hard_stop-flow now pause b calls high d n h =
    stopped-flow calls (trigger_hard_stop now pause b) now high d n (omega arith)
