-- ===== src/EventScheduler/Drain.antt =====
-- core/event_scheduler.py: in which order events leave the queue, and that each leaves it once.
pub mod Calls
use binance_future_bot.Base.{
  ℕ, zero, suc, ◌+◌, ◌-◌, ◌≤◌, ◌≡◌, refl, ap, sym, ◌∙◌, Bool, true, false, ◌&&◌, ◌||◌, not, List,
  [], ◌∷◌, ◌++◌, arith, ltb, leb, ◌==◌, if◌then◌else◌, length, filter, take, All, All-imp,
  Bool-cases, inl, inr,
}
use binance_future_bot.Base.Sort.{insert_by, All-insert_by}
use binance_future_bot.EventScheduler.{
  Item, CandleCloseEvent, EventScheduler, sooner, push, drain_from, drain_due,
}

-- No item of the list leaves before one that stands in front of it.
abbrev pub Sorted : List Item → Type 0
Sorted [] = Unit
Sorted (x ∷ l) = All (λ y. sooner y x ≡ false) l × Sorted l

sooner_trans : (x y z : Item) → sooner y x ≡ false → sooner z y ≡ false → sooner z x ≡ false
unfolding sooner
sooner_trans x y z h k = ground arith

sooner_asym : (x y : Item) → sooner x y ≡ true → sooner y x ≡ false
unfolding sooner
sooner_asym x y h = ground arith

insert_by-Sorted : (x : Item) (l : List Item) → Sorted l → Sorted (insert_by sooner x l)
unfolding insert_by
insert_by-Sorted x [] h = (tt, tt)
insert_by-Sorted x (y ∷ l) h = elim (Bool-cases (sooner x y)) [
  | inl first ↦
      let behind = sooner_asym x y first in
      rw first (
        (
          behind,
          All-imp (λ z. sooner z y ≡ false) (λ z. sooner z x ≡ false) l
              (λ z later. sooner_trans x y z behind later) h.0,
        ),
        h,
      )
  | inr after ↦
      rw after
        (All-insert_by sooner (λ z. sooner z y ≡ false) x l after h.0, insert_by-Sorted x l h.1)
]

-- Is the item due?
abbrev pub is_due : ℕ → Item → Bool
is_due now x = not (ltb now x.due)

not_due-filter :
    (now : ℕ) (x : Item) (l : List Item)
    → ltb now x.due ≡ true
    → All (λ y. sooner y x ≡ false) l
    → filter (is_due now) l ≡ []
unfolding sooner
not_due-filter now x [] late h = refl
not_due-filter now x (y ∷ l) late h = ground (arith, not_due-filter now x l late h.1, h.0)

-- On a sorted heap the loop gives what a scan of the whole heap would give.
pub drain_from-take :
    (room now : ℕ) (l : List Item)
    → Sorted l
    → (drain_from room now l).0 ≡ take room (filter (is_due now) l)
unfolding drain_from
drain_from-take zero now [] h = refl
drain_from-take (suc room) now [] h = refl
drain_from-take zero now (x ∷ l) h = refl
drain_from-take (suc room) now (x ∷ l) h = elim (Bool-cases (ltb now x.due)) [
  | inl late ↦ rw late (sym (ap (take (suc room)) (not_due-filter now x l late h.0)))
  | inr due ↦ rw due (ap (λ t. x ∷ t) (drain_from-take room now l h.1))
]

pub drain_from-append :
    (room now : ℕ) (l : List Item) → (drain_from room now l).0 ++ (drain_from room now l).1 ≡ l
unfolding drain_from
drain_from-append room now [] = refl
drain_from-append zero now (x ∷ l) = refl
drain_from-append (suc room) now (x ∷ l) = elim (Bool-cases (ltb now x.due)) [
  | inl late ↦ rw late refl
  | inr due ↦ rw due (ap (λ t. x ∷ t) (drain_from-append room now l))
]

pub drain_from-Sorted : (room now : ℕ) (l : List Item) → Sorted l → Sorted (drain_from room now l).1
unfolding drain_from
drain_from-Sorted room now [] h = tt
drain_from-Sorted zero now (x ∷ l) h = h
drain_from-Sorted (suc room) now (x ∷ l) h = ground (arith, drain_from-Sorted room now l h.1, h)
