-- ===== src/Base/Window.antt =====
-- Sliding windows over a log of weighted events: the weight that falls into an interval of time,
-- and why a bound on the events still remembered bounds every interval. Shared by the
-- per-minute governors of the program.
use native.Mathlib.Decide.{dec_lt}
use mathlib.Core.List.{append_assoc}
use binance_future_bot.Base.{
  ℕ, ◌+◌, ◌≤◌, ◌<◌, ◌≡◌, refl, ap, sym, ◌∙◌, All-append, All-imp, Bool, true, ◌&&◌, List, [], ◌∷◌,
  ◌++◌, arith, ltb, leb, if◌then◌else◌, All, Bool-cases, inl, inr,
}

-- `while q and old(q[0]): q.popleft()`
abbrev pub drop_while {ℓ} : {A : Type ℓ} → (A → Bool) → List A → List A
drop_while p [] = []
drop_while p (x ∷ xs) = if p x then drop_while p xs else x ∷ xs

abbrev pub take_while {ℓ} : {A : Type ℓ} → (A → Bool) → List A → List A
take_while p [] = []
take_while p (x ∷ xs) = if p x then x ∷ take_while p xs else []

pub take_while-append-drop_while {ℓ} :
    {A : Type ℓ} (p : A → Bool) (xs : List A) → take_while p xs ++ drop_while p xs ≡ xs
take_while-append-drop_while p [] = refl
take_while-append-drop_while p (x ∷ xs) = ground (arith, take_while-append-drop_while p xs)

pub take_while-All {ℓ} :
    {A : Type ℓ} (p : A → Bool) (xs : List A) → All (λ x. p x ≡ true) (take_while p xs)
take_while-All p [] = tt
take_while-All p (x ∷ xs) = elim (Bool-cases (p x)) [
  | inl h ↦ ground (arith, take_while-All p xs)
  | inr h ↦ ground arith
]

-- Times that never go back, from `t` on.
abbrev pub Ordered : ℕ → List ℕ → Type 0
Ordered t [] = Unit
Ordered t (x ∷ xs) = (t ≤ x) × Ordered x xs

module _ {ℓ} {A : Type ℓ} (time weight : A → ℕ) where
  abbrev pub total : List A → ℕ
  total [] = 0
  total (x ∷ xs) = weight x + total xs

  -- The weight of the events with a time in [from, to).
  abbrev pub within : ℕ → ℕ → List A → ℕ
  within from to [] = 0
  within from to (x ∷ xs) =
      (if leb from (time x) && ltb (time x) to then weight x else 0) + within from to xs

  pub total-append : (xs ys : List A) → total (xs ++ ys) ≡ total xs + total ys
  total-append [] ys = omega arith
  total-append (x ∷ xs) ys = omega (arith, total-append xs ys)

  pub within-append :
      (from to : ℕ) (xs ys : List A)
      → within from to (xs ++ ys) ≡ within from to xs + within from to ys
  within-append from to [] ys = omega arith
  within-append from to (x ∷ xs) ys = omega (arith, within-append from to xs ys)

  pub within-le-total : (from to : ℕ) (xs : List A) → within from to xs ≤ total xs
  within-le-total from to [] = omega arith
  within-le-total from to (x ∷ xs) = ground (arith, within-le-total from to xs)

  pub within-old :
      (span now from : ℕ) (xs : List A)
      → All (λ x. time x + span ≤ now) xs
      → now < from + span
      → within from (from + span) xs ≡ 0
  within-old span now from [] h lt = refl
  within-old span now from (x ∷ xs) h lt = ground (arith, within-old span now from xs h.1 lt)

  pub All-old_mono :
      (span now later : ℕ) (xs : List A)
      → now ≤ later
      → All (λ x. time x + span ≤ now) xs
      → All (λ x. time x + span ≤ later) xs
  All-old_mono span now later [] le h = tt
  All-old_mono span now later (x ∷ xs) le h = (omega arith, All-old_mono span now later xs le h.1)

  -- Every interval of length `span` holds at most `cap`.
  abbrev pub Bounded : ℕ → ℕ → List A → Type 0
  Bounded span cap log = (from : ℕ) → within from (from + span) log ≤ cap

  -- The log splits into events that have left the window and those still remembered.
  pub record Splits (span now : ℕ) (log kept : List A) : Type ℓ where
    pub older : List A
    pub split : log ≡ older ++ kept
    pub left : All (λ x. time x + span ≤ now) older

  pub Splits-later :
      {span now later : ℕ} {log kept : List A}
      → now ≤ later
      → Splits span now log kept
      → Splits span later log kept
  Splits-later {span} {now} {later} le s = record {
    older = s.older;
    split = s.split;
    left = All-old_mono span now later s.older le s.left;
  }

  -- Forgetting a prefix of events that have all left the window.
  pub Splits-drop :
      {span now : ℕ} {log kept : List A} (p : A → Bool)
      → ((x : A) → p x ≡ true → time x + span ≤ now)
      → Splits span now log kept
      → Splits span now log (drop_while p kept)
  Splits-drop {span} {now} {log} {kept} p old s = record {
    older = s.older ++ take_while p kept;
    split =
        s.split
        ∙ ap (s.older ++◌) (sym (take_while-append-drop_while p kept))
        ∙ sym (append_assoc s.older (take_while p kept) (drop_while p kept));
    left =
        All-append _ s.older _ s.left (All-imp _ _ (take_while p kept) old (take_while-All p kept));
  }

  pub Splits-append :
      {span now : ℕ} {log kept : List A} (new : List A)
      → Splits span now log kept
      → Splits span now (log ++ new) (kept ++ new)
  Splits-append {log} {kept} new s = record {
    older = s.older;
    split = ap (λ l. l ++ new) s.split ∙ append_assoc s.older kept new;
    left = s.left;
  }

  -- An event is admitted only while the remembered weight leaves room for it: then no interval
  -- of the window's length ever holds more than the cap.
  pub Bounded-append :
      {span now cap : ℕ} {log kept : List A} (x : A)
      → Splits span now log kept
      → Bounded span cap log
      → time x ≡ now
      → total kept + weight x ≤ cap
      → Bounded span cap (log ++ x ∷ [])
  Bounded-append {span} {now} {cap} {log} {kept} x s b e room from =
      elim (dec_lt now (from + span)) [
        | yes lt ↦
            let w = within from (from + span) in
            let old : w s.older ≡ 0 = within-old span now from s.older s.left lt in
            let cut : w log ≡ w s.older + w kept =
              ap w s.split ∙ within-append from (from + span) s.older kept in
            ground (
              arith,
              within-append from (from + span) log (x ∷ []),
              within-le-total from (from + span) kept,
              old,
              cut,
            )
        | no ge ↦ ground (arith, within-append from (from + span) log (x ∷ []), b from)
      ]

  -- An event of no weight changes no interval.
  pub Bounded-append_none :
      (span cap : ℕ) (log : List A) (x : A)
      → weight x ≡ 0
      → Bounded span cap log
      → Bounded span cap (log ++ x ∷ [])
  Bounded-append_none span cap log x e b from =
      ground (arith, within-append from (from + span) log (x ∷ []), b from)

  -- Events in the last `span` are all remembered, so an interval that ends now holds no more.
  pub within-recent :
      {span now : ℕ} {log kept : List A} (from : ℕ)
      → Splits span now log kept
      → now < from + span
      → within from (from + span) log ≤ total kept
  within-recent {span} {now} {log} {kept} from s lt =
      let w = within from (from + span) in
      let old : w s.older ≡ 0 = within-old span now from s.older s.left lt in
      let cut : w log ≡ w s.older + w kept =
        ap w s.split ∙ within-append from (from + span) s.older kept in
      omega (arith, within-le-total from (from + span) kept, old, cut)

-- The split does not depend on what an event weighs.
pub Splits-reweigh {ℓ} :
    {A : Type ℓ} {time weight : A → ℕ} (weight' : A → ℕ) {span now : ℕ} {log kept : List A}
    → Splits time weight span now log kept
    → Splits time weight' span now log kept
Splits-reweigh weight' s = record { older = s.older; split = s.split; left = s.left }
