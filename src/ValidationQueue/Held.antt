-- ===== src/ValidationQueue/Held.antt =====
-- core/validation_queue.py: the symbols that the validator holds, and the room in its queue.
use binance_future_bot.Base.{
  ℕ, suc, ◌≤◌, ◌≡◌, ◌⊎◌, refl, ap, sym, ◌∙◌, false, Option, none, some, List, [], ◌∷◌, ◌++◌, arith,
  length, mem, =?_iff, text_eq, inl, inr, Distinct, mem-append, Distinct-append_one,
}
use binance_future_bot.Base.Text.{Text, upper}
use binance_future_bot.Base.Sets.{discard, set_add, mem-discard, mem-set_add}
use binance_future_bot.ValidationQueue.{QueuedCandidate, Validator, drop_oldest}

abbrev pub names : List QueuedCandidate → List Text
names [] = []
names (x ∷ l) = upper x.symbol ∷ names l

names-append : (l l' : List QueuedCandidate) → names (l ++ l') ≡ names l ++ names l'
names-append [] l' = refl
names-append (x ∷ l) l' = ap (λ t. upper x.symbol ∷ t) (names-append l l')

abbrev pub with_current : Option QueuedCandidate → List QueuedCandidate → List Text
with_current none l = names l
with_current (some x) l = upper x.symbol ∷ names l

-- The symbols at the worker and in the queue.
abbrev pub held : Validator → List Text
held v = with_current v.current v.inbound

-- Each symbol is held once, the pending ones are those held, and the queue keeps its bound.
pub record IsPending (cap : ℕ) (v : Validator) : Type 0 where
  pub once : Distinct (held v)
  pub pending_are : (k : Text) → mem k v.pending ≡ mem k (held v)
  pub bound : length v.inbound ≤ cap

length-append_one :
    (l : List QueuedCandidate) (x : QueuedCandidate) → length (l ++ x ∷ []) ≡ suc (length l)
length-append_one [] x = refl
length-append_one (y ∷ l) x = ap suc (length-append_one l x)

held-append :
    (c : Option QueuedCandidate) (l : List QueuedCandidate) (x : QueuedCandidate)
    → with_current c (l ++ x ∷ []) ≡ with_current c l ++ upper x.symbol ∷ []
held-append none l x = names-append l (x ∷ [])
held-append (some y) l x = ap (λ t. upper y.symbol ∷ t) (names-append l (x ∷ []))

-- Without room, the oldest item leaves.
room-IsPending :
    (cap : ℕ) (current : Option QueuedCandidate) (oldest : QueuedCandidate)
    (rest : List QueuedCandidate) (pending : List Text)
    → Distinct (with_current current (oldest ∷ rest))
    → ((k : Text) → mem k pending ≡ mem k (with_current current (oldest ∷ rest)))
    → Distinct (with_current current rest)
      × ((k : Text)
          → mem k (discard (upper oldest.symbol) pending) ≡ mem k (with_current current rest))
room-IsPending cap none oldest rest pending once same = (
  once.1,
  λ k.
      let gone = once.0 in
      ground (
        arith,
        mem-discard (upper oldest.symbol) k pending,
        same k,
        =?_iff (upper oldest.symbol) k,
        gone,
      ),
)
room-IsPending cap (some x) oldest rest pending once same = (
  (ground (arith, once.0), once.1.1),
  λ k.
      let gone = once.1.0 in
      let other = once.0 in
      ground (
        arith,
        mem-discard (upper oldest.symbol) k pending,
        same k,
        =?_iff (upper oldest.symbol) k,
        =?_iff (upper x.symbol) k,
        =?_iff (upper x.symbol) (upper oldest.symbol),
        =?_iff (upper oldest.symbol) (upper x.symbol),
        gone,
        other,
      ),
)

pub items-cases :
    (l : List QueuedCandidate)
    → (l ≡ []) ⊎ ((x : QueuedCandidate) × (rest : List QueuedCandidate) × (l ≡ x ∷ rest))
items-cases [] = inl refl
items-cases (x ∷ rest) = inr (x, rest, refl)

pub drop_oldest-IsPending :
    (cap : ℕ) (v : Validator)
    → IsPending (suc cap) v
    → suc cap ≤ length v.inbound
    → IsPending (suc cap) (drop_oldest v) × (length (drop_oldest v).inbound ≤ cap)
unfolding drop_oldest
drop_oldest-IsPending cap v h full = elim (items-cases v.inbound) [
  | inl empty ↦ absurd (ground (arith, full, empty))
  | inr (oldest, rest, there) ↦
      let same_held : held v ≡ with_current v.current (oldest ∷ rest) =
        ap (with_current v.current) there in
      let (once, are) =
        room-IsPending cap v.current oldest rest v.pending (rw (← same_held) h.once)
          (λ k. h.pending_are k ∙ ap (mem k) same_held) in
      let less : length rest ≤ cap = ground (arith, h.bound, there) in
      let is : drop_oldest v
          ≡ record v { inbound = rest; pending = discard (upper oldest.symbol) v.pending } =
        ground (arith, there) in
      rw is (record { once = once; pending_are = are; bound = omega (arith, less) }, less)
]

pub put-IsPending :
    (cap now : ℕ) (raw : Text) (v : Validator)
    → IsPending (suc cap) v
    → length v.inbound ≤ cap
    → mem (upper raw) v.pending ≡ false
    → IsPending (suc cap) (record v {
      pending = set_add (upper raw) v.pending;
      inbound = v.inbound ++ record { symbol = raw; queued_at = now } ∷ [];
    })
put-IsPending cap now raw v h room new =
    let x : QueuedCandidate = record { symbol = raw; queued_at = now } in
    let grown = held-append v.current v.inbound x in
    let fresh : mem (upper raw) (held v) ≡ false = sym (h.pending_are (upper raw)) ∙ new in
    record {
      once = rw grown (Distinct-append_one (upper raw) (held v) h.once fresh);
      pending_are = λ k. rw grown (
          ground (
            arith,
            mem-append k (held v) (upper raw ∷ []),
            mem-set_add (upper raw) k v.pending,
            h.pending_are k,
            =?_iff (upper raw) k,
          ));
      bound = rw (length-append_one v.inbound x) (omega (arith, room));
    }

pub drop_oldest-absent :
    (v : Validator) (k : Text) → mem k v.pending ≡ false → mem k (drop_oldest v).pending ≡ false
unfolding drop_oldest
drop_oldest-absent v k h = elim (items-cases v.inbound) [
  | inl empty ↦ ground (arith, empty, h)
  | inr (x, rest, there) ↦ ground (arith, there, h, mem-discard (upper x.symbol) k v.pending)
]
