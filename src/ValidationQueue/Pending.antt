-- ===== src/ValidationQueue/Pending.antt =====
-- core/validation_queue.py: the set of pending symbols.
use binance_future_bot.Base.{
  ℕ, suc, ◌-◌, ◌≡◌, refl, ap, sym, ◌∙◌, false, ◌||◌, none, some, List, [], ◌∷◌, arith, leb, length,
  mem, =?_iff, text_eq, Bool-cases, Option-cases, inl, inr, Distinct,
}
use binance_future_bot.Base.Text.{Text, upper}
use binance_future_bot.Base.Sets.{discard, mem-discard}
use binance_future_bot.Funnel.{is_blank}
use binance_future_bot.Funnel.Types.{Config, TierFunnel}
use binance_future_bot.ValidationQueue.{
  QueueConfig, Validator, Outcome, capacity, new_validator, enqueue, drop_oldest, begin_item,
  finish_item, drain_approved,
}
use binance_future_bot.ValidationQueue.Held.{
  IsPending, held, names, with_current, items-cases, drop_oldest-IsPending, drop_oldest-absent,
  put-IsPending,
}

pub data Call : Type 0 where
  enqueued : ℕ → Text → Call
  begun : Call
  finished : ℕ → ℕ → Outcome → Call
  approved_taken : ℕ → Call

unfoldable pub after_call :
    Config → QueueConfig → Call → Validator × TierFunnel → Validator × TierFunnel
after_call c q (enqueued now raw) (v, m) = ((enqueue q now raw v).0, m)
after_call c q begun (v, m) = (begin_item v, m)
after_call c q (finished checked now outcome) s = finish_item c q checked now outcome s
after_call c q (approved_taken n) (v, m) = ((drain_approved n v).0, m)

unfoldable pub after_calls :
    Config → QueueConfig → List Call → Validator × TierFunnel → Validator × TierFunnel
unfolding after_call
after_calls c q [] s = s
after_calls c q (call ∷ calls) s = after_calls c q calls (after_call c q call s)

pub IsPending-of : {cap : ℕ} {v w : Validator} → w ≡ v → IsPending cap v → IsPending cap w
IsPending-of e h = rw e h

pub enqueue-IsPending :
    (cap now : ℕ) (raw : Text) (q : QueueConfig) (v : Validator)
    → capacity q ≡ suc cap
    → IsPending (suc cap) v
    → IsPending (suc cap) (enqueue q now raw v).0
unfolding enqueue
enqueue-IsPending cap now raw q v size h =
    elim (Bool-cases (is_blank (upper raw) || mem (upper raw) v.pending)) [
      | inl out ↦ IsPending-of (ground (arith, out)) h
      | inr new ↦
          let absent : mem (upper raw) v.pending ≡ false = ground (arith, new) in
          elim (Bool-cases (leb (capacity q) (length v.inbound))) [
            | inl full ↦
                let (h', room) = drop_oldest-IsPending cap v h (ground (arith, full, size)) in
                let still : mem (upper raw) (drop_oldest v).pending ≡ false =
                  drop_oldest-absent v (upper raw) absent in
                IsPending-of (ground (arith, new, full))
                  (put-IsPending cap now raw (drop_oldest v) h' room still)
            | inr fits ↦
                IsPending-of (ground (arith, new, fits))
                  (put-IsPending cap now raw v h (ground (arith, fits, size)) absent)
          ]
    ]

Distinct-of : (l l' : List Text) → l ≡ l' → Distinct l → Distinct l'
Distinct-of l l' e d = rw (← e) d

-- Only the held items and the pending set count.
pub finished-IsPending :
    (cap : ℕ) (v w : Validator)
    → w.inbound ≡ v.inbound
    → w.current ≡ v.current
    → w.pending ≡ v.pending
    → IsPending cap v
    → IsPending cap w
finished-IsPending cap v w e f g h =
    let same_held : held w ≡ held v = cc (e, f) in
    record {
      once = Distinct-of (held v) (held w) (sym same_held) h.once;
      pending_are = λ k. cc (ap (mem k) g, h.pending_are k, ap (mem k) same_held);
      bound = rw e h.bound;
    }

pub begin_item-IsPending :
    (cap : ℕ) (v : Validator) → IsPending cap v → IsPending cap (begin_item v)
unfolding begin_item
begin_item-IsPending cap v h = elim (Option-cases v.current) [
  | inr (x, busy) ↦ IsPending-of (ground (arith, busy)) h
  | inl free ↦ elim (items-cases v.inbound) [
    | inl empty ↦ IsPending-of (ground (arith, free, empty)) h
    | inr (item, rest, there) ↦
        let same_held : held v ≡ upper item.symbol ∷ names rest = cc (free, there) in
        let is : begin_item v ≡ record v { inbound = rest; current = some item } =
          ground (arith, free, there) in
        rw is (record {
          once = Distinct-of (held v) (upper item.symbol ∷ names rest) same_held h.once;
          pending_are = λ k. h.pending_are k ∙ ap (mem k) same_held;
          bound = ground (arith, h.bound, there);
        })
  ]
]

pub finish_item-IsPending :
    (cap : ℕ) (c : Config) (q : QueueConfig) (checked now : ℕ) (outcome : Outcome) (v : Validator)
    (m : TierFunnel)
    → IsPending cap v
    → IsPending cap (finish_item c q checked now outcome (v, m)).0
unfolding finish_item
finish_item-IsPending cap c q checked now outcome v m h = elim (Option-cases v.current) [
  | inl free ↦ IsPending-of (ground (arith, free)) h
  | inr (x, busy) ↦
      let key = upper x.symbol in
      let left = names v.inbound in
      let same_held : held v ≡ key ∷ left = ap (λ y. with_current y v.inbound) busy in
      let once = Distinct-of (held v) (key ∷ left) same_held h.once in
      let v' : Validator = record v { current = none; pending = discard key v.pending } in
      let fresh : mem key left ≡ false = once.0 in
      let h' : IsPending cap v' = record {
        once = once.1;
        pending_are = λ k.
            let listed : mem k v.pending ≡ mem k (key ∷ left) =
              h.pending_are k ∙ ap (mem k) same_held in
            ground (arith, mem-discard key k v.pending, listed, =?_iff key k, fresh);
        bound = h.bound;
      } in
      finished-IsPending cap v' (finish_item c q checked now outcome (v, m)).0
        (ground (arith, busy)) (ground (arith, busy)) (ground (arith, busy)) h'
]

after_call-IsPending :
    (cap : ℕ) (c : Config) (q : QueueConfig) (call : Call) (v : Validator) (m : TierFunnel)
    → capacity q ≡ suc cap
    → IsPending (suc cap) v
    → IsPending (suc cap) (after_call c q call (v, m)).0
unfolding after_call drain_approved
after_call-IsPending cap c q (enqueued now raw) v m size h =
    enqueue-IsPending cap now raw q v size h
after_call-IsPending cap c q begun v m size h = begin_item-IsPending (suc cap) v h
after_call-IsPending cap c q (finished checked now outcome) v m size h =
    finish_item-IsPending (suc cap) c q checked now outcome v m h
after_call-IsPending cap c q (approved_taken n) v m size h =
    finished-IsPending (suc cap) v (drain_approved n v).0 refl refl refl h

after_calls_from-IsPending :
    (cap : ℕ) (c : Config) (q : QueueConfig) (calls : List Call) (v : Validator) (m : TierFunnel)
    → capacity q ≡ suc cap
    → IsPending (suc cap) v
    → IsPending (suc cap) (after_calls c q calls (v, m)).0
unfolding after_calls
after_calls_from-IsPending cap c q [] v m size h = h
after_calls_from-IsPending cap c q (call ∷ calls) v m size h =
    let s = after_call c q call (v, m) in
    after_calls_from-IsPending cap c q calls s.0 s.1 size
      (after_call-IsPending cap c q call v m size h)

-- From a new validator on, however the worker's turns and the calls that put coins in interleave:
-- no symbol is twice in the queue or both there and at the worker, the pending symbols are exactly
-- these, and the queue holds at most its bound.
pub after_calls-IsPending :
    (c : Config) (q : QueueConfig) (calls : List Call) (m : TierFunnel)
    → IsPending (capacity q) (after_calls c q calls (new_validator, m)).0
after_calls-IsPending c q calls m =
    let cap = capacity q - 1 in
    let size : capacity q ≡ suc cap = omega arith in
    let new : IsPending (suc cap) new_validator = record {
      once = tt;
      pending_are = λ k. refl;
      bound = omega arith;
    } in
    rw size (after_calls_from-IsPending cap c q calls new_validator m size new)
