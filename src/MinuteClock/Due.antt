-- ===== src/MinuteClock/Due.antt =====
-- When the minute clock fires.
use binance_future_bot.Base.{
  ℕ, ◌+◌, ◌/◌, ◌%◌, ◌≤◌, ◌<◌, ◌≡◌, refl, true, false, Option, none, some, List, [], ◌∷◌, arith,
  if◌then◌else◌, Distinct, mem, nat_eq, Bool-cases, inl, inr, All,
}
use binance_future_bot.Base.Window.{Ordered}
use binance_future_bot.MinuteClock.{MinuteScanClock, new_clock, due, until_due}

-- The minutes in which `due` answered True when it was asked at `times`.
unfoldable pub fired : MinuteScanClock → List ℕ → List ℕ
fired c [] = []
fired c (now ∷ times) =
    let (c', fires) = due c now in if fires then now / 60000 ∷ fired c' times else fired c' times

-- Every minute from a time on, later than the last one recorded.
abbrev Fresh : Option ℕ → List ℕ → Type 0
Fresh none minutes = Unit
Fresh (some last) minutes = All (λ m. last < m) minutes

-- The last minute recorded is not in the future.
abbrev LastLe : Option ℕ → ℕ → Type 0
LastLe none now = Unit
LastLe (some last) now = last ≤ now / 60000

All-lt_trans : (a b : ℕ) (l : List ℕ) → a ≤ b → All (λ m. b < m) l → All (λ m. a < m) l
All-lt_trans a b [] h k = tt
All-lt_trans a b (x ∷ l) h k = (omega arith, All-lt_trans a b l h k.1)

All-lt-mem : (a : ℕ) (l : List ℕ) → All (λ m. a < m) l → mem a l ≡ false
All-lt-mem a [] h = refl
All-lt-mem a (x ∷ l) h = ground (arith, All-lt-mem a l h.1)

LastLe-mono : (last : Option ℕ) (t now : ℕ) → t ≤ now → LastLe last t → LastLe last now
LastLe-mono none t now h l = tt
LastLe-mono (some m) t now h l = omega arith

due_fires :
    (c : MinuteScanClock) (now : ℕ)
    → c.enabled ≡ true
    → (due c now).1 ≡ true
    → LastLe c.last_minute now
    → ((due c now).0 ≡ record c { last_minute = some (now / 60000) })
      × Fresh c.last_minute (now / 60000 ∷ [])
unfolding due
due_fires c now e f l = by_last c.last_minute refl
  where
    by_last :
        (last : Option ℕ)
        → c.last_minute ≡ last
        → ((due c now).0 ≡ record c { last_minute = some (now / 60000) })
          × Fresh c.last_minute (now / 60000 ∷ [])
    by_last none q = rw q (ground arith, tt)
    by_last (some m) q = rw q (ground arith, (ground arith, tt))

due_waits :
    (c : MinuteScanClock) (now : ℕ) → c.enabled ≡ true → (due c now).1 ≡ false → (due c now).0 ≡ c
unfolding due
due_waits c now e f = ground arith

Fresh-cons :
    (last : Option ℕ) (m : ℕ) (l : List ℕ)
    → Fresh last (m ∷ [])
    → All (λ x. m < x) l
    → Fresh last (m ∷ l)
Fresh-cons none m l h k = tt
Fresh-cons (some a) m l h k = (h.0, All-lt_trans a m l (omega arith) k)

Fresh-nil : (last : Option ℕ) → Fresh last []
Fresh-nil none = tt
Fresh-nil (some m) = tt

fired-Distinct_from :
    (c : MinuteScanClock) (t : ℕ) (times : List ℕ)
    → c.enabled ≡ true
    → LastLe c.last_minute t
    → Ordered t times
    → Fresh c.last_minute (fired c times) × Distinct (fired c times)
unfolding fired
fired-Distinct_from c t [] e l o = (Fresh-nil c.last_minute, tt)
fired-Distinct_from c t (now ∷ times) e l o = elim (Bool-cases (due c now).1) [
  | inl f ↦
      let (same, fresh) = due_fires c now e f (LastLe-mono c.last_minute t now o.0 l) in
      let rest =
        fired-Distinct_from (record c { last_minute = some (now / 60000) }) now times e
          (omega arith) o.1 in
      rw (f, same) (Fresh-cons c.last_minute _ _ fresh rest.0, (All-lt-mem _ _ rest.0, rest.1))
  | inr w ↦
      rw (w, due_waits c now e w)
        (fired-Distinct_from c now times e (LastLe-mono c.last_minute t now o.0 l) o.1)
]

-- However often the new, enabled clock is asked, at times that never go back: no minute fires twice.
pub fired-Distinct :
    (offset : ℕ) (times : List ℕ) → Ordered 0 times → Distinct (fired (new_clock offset true) times)
unfolding new_clock
fired-Distinct offset times o = (fired-Distinct_from (new_clock offset true) 0 times refl tt o).1

-- When an enabled clock says how long to sleep, it fires exactly then and not before: at no
-- earlier time, and at that time. The clock is not one whose current minute was recorded before
-- its offset had passed.
pub until_due_exact :
    (c : MinuteScanClock) (now : ℕ)
    → c.enabled ≡ true
    → c.offset < 60000
    → (c.last_minute ≡ some (now / 60000) → c.offset ≤ now % 60000)
    → ((due c (now + until_due c now)).1 ≡ true)
      × ((t : ℕ) → now ≤ t → t < now + until_due c now → (due c t).1 ≡ false)
unfolding due until_due
until_due_exact c now e small early = (ground arith, λ t a b. ground arith)
