-- ===== src/LanePacer/Gaps.antt =====
-- rest_rate_guard.py, `ComponentRestPacer`: the gap holds over any sequence of calls.
use binance_future_bot.Base.{
  ℕ, ◌+◌, ◌≤◌, ◌<◌, ◌≡◌, refl, true, false, ◌&&◌, ◌⊎◌, inl, inr, List, [], ◌∷◌, arith, ltb,
  if◌then◌else◌, Bool-cases, Option, none, some, ◌∙◌, subst,
}
use binance_future_bot.RateGuard.Types.{
  RestComponent, order, hot, normal, rest_pace, same_component,
}
use binance_future_bot.Settings.{Settings}
use binance_future_bot.LanePacer.{
  ComponentRestPacer, last_at, set_last, new_pacer, start_of, wait, try_consume,
}

-- A call, with the clock it reads.
pub data Call : Type 0 where
  waits tries : (now : ℕ) (component : RestComponent) → Call

abbrev pub time_of : Call → ℕ
time_of (waits now component) = now
time_of (tries now component) = now

unfoldable pub after_call : Settings → Call → ComponentRestPacer → ComponentRestPacer
after_call s (waits now component) p = (wait s now component p).0
after_call s (tries now component) p = (try_consume s now component p).0

-- The start of a REST call on `lane` that a call of the pacer grants.
unfoldable pub started : Settings → RestComponent → Call → ComponentRestPacer → Option ℕ
started s lane (waits now component) p =
    if same_component component lane then some (now + (wait s now component p).1) else none
started s lane (tries now component) p =
    if same_component component lane && (try_consume s now component p).1 then some now else none

abbrev pub before_rest : Option ℕ → List ℕ → List ℕ
before_rest none l = l
before_rest (some t) l = t ∷ l

-- The starts on `lane` that a sequence of calls grants.
unfoldable pub starts : Settings → RestComponent → List Call → ComponentRestPacer → List ℕ
unfolding after_call started
starts s lane [] p = []
starts s lane (c ∷ calls) p =
    before_rest (started s lane c p) (starts s lane calls (after_call s c p))

-- Each start is at least `gap` after the one before it, the first after `last`.
abbrev pub Spaced : ℕ → ℕ → List ℕ → Type 0
Spaced gap last [] = Unit
Spaced gap last (t ∷ l) = (last + gap ≤ t) × Spaced gap t l

abbrev pub Gaps : ℕ → List ℕ → Type 0
Gaps gap [] = Unit
Gaps gap (t ∷ l) = Spaced gap t l

-- Every call reads a positive clock.
abbrev pub Ticking : List Call → Type 0
Ticking [] = Unit
Ticking (c ∷ calls) = (0 < time_of c) × Ticking calls

last_at-set_last :
    (lane component : RestComponent) (t : ℕ) (p : ComponentRestPacer)
    → last_at lane (set_last component t p)
      ≡ (if same_component component lane then t else last_at lane p)
unfolding last_at set_last
last_at-set_last order order t p = refl
last_at-set_last order hot t p = refl
last_at-set_last order normal t p = refl
last_at-set_last hot order t p = refl
last_at-set_last hot hot t p = refl
last_at-set_last hot normal t p = refl
last_at-set_last normal order t p = refl
last_at-set_last normal hot t p = refl
last_at-set_last normal normal t p = refl

-- What one call does to a lane: it starts nothing and leaves the last start, or it starts after the
-- gap and remembers the start.
Effect : ℕ → ℕ → ℕ → Option ℕ → Type 0
Effect gap last last' none = last' ≡ last
Effect gap last last' (some t) = (last' ≡ t) × (0 < t) × ((last ≡ 0) ⊎ (last + gap ≤ t))

same_component_self : (lane : RestComponent) → same_component lane lane ≡ true
same_component_self order = refl
same_component_self hot = refl
same_component_self normal = refl

same_component_eq : (a b : RestComponent) → same_component a b ≡ true → b ≡ a
same_component_eq order order h = refl
same_component_eq hot hot h = refl
same_component_eq normal normal h = refl
same_component_eq order hot h = cc
same_component_eq order normal h = cc
same_component_eq hot order h = cc
same_component_eq hot normal h = cc
same_component_eq normal order h = cc
same_component_eq normal hot h = cc

abbrev CallEffect : Settings → RestComponent → Call → ComponentRestPacer → Type 0
CallEffect s lane c p =
    Effect (rest_pace s lane) (last_at lane p) (last_at lane (after_call s c p))
      (started s lane c p)

waits_own :
    (s : Settings) (lane : RestComponent) (now : ℕ) (p : ComponentRestPacer)
    → 0 < now
    → CallEffect s lane (waits now lane) p
unfolding after_call started wait start_of Effect
waits_own s lane now p h =
    let self = same_component_self lane in
    let kept = last_at-set_last lane lane (start_of s now lane p) p in
    let set : last_at lane (set_last lane (start_of s now lane p) p) ≡ start_of s now lane p =
      kept ∙ rw self refl in
    rw self (ground arith, ground arith, ground arith)

tries_own :
    (s : Settings) (lane : RestComponent) (now : ℕ) (p : ComponentRestPacer)
    → 0 < now
    → CallEffect s lane (tries now lane) p
unfolding after_call started try_consume Effect
tries_own s lane now p h =
    let self = same_component_self lane in
    let kept = last_at-set_last lane lane now p in
    let set : last_at lane (set_last lane now p) ≡ now = kept ∙ rw self refl in
    elim (Bool-cases (ltb 0 (last_at lane p) && ltb now (last_at lane p + rest_pace s lane))) [
      | inl early ↦ rw (self, early, after_call, try_consume) refl
      | inr late ↦ rw (self, late, after_call, try_consume) (set, h, ground arith)
    ]

tries_other :
    (s : Settings) (lane component : RestComponent) (now : ℕ) (p : ComponentRestPacer)
    → same_component component lane ≡ false
    → CallEffect s lane (tries now component) p
unfolding after_call started try_consume Effect
tries_other s lane component now p other =
    let kept = last_at-set_last lane component now p in
    let same : last_at lane (set_last component now p) ≡ last_at lane p = kept ∙ rw other refl in
    elim (Bool-cases
      (ltb 0 (last_at component p) && ltb now (last_at component p + rest_pace s component))) [
        | inl early ↦ rw (other, early, after_call, try_consume) refl
        | inr late ↦ rw (other, late, after_call, try_consume) same
      ]

call-Effect :
    (s : Settings) (lane : RestComponent) (c : Call) (p : ComponentRestPacer)
    → 0 < time_of c
    → CallEffect s lane c p
unfolding after_call started wait Effect
call-Effect s lane (waits now component) p h = elim (Bool-cases (same_component component lane)) [
  | inl same ↦
      subst (λ k. CallEffect s lane (waits now k) p) (same_component_eq component lane same)
        (waits_own s lane now p h)
  | inr other ↦
      rw other (last_at-set_last lane component (start_of s now component p) p ∙ rw other refl)
]
call-Effect s lane (tries now component) p h = elim (Bool-cases (same_component component lane)) [
  | inl same ↦
      subst (λ k. CallEffect s lane (tries now k) p) (same_component_eq component lane same)
        (tries_own s lane now p h)
  | inr other ↦ tries_other s lane component now p other
]

-- From a last start of 0, which is none, the gaps; from another, the gap after it too.
abbrev SpacedFrom : ℕ → ℕ → List ℕ → Type 0
SpacedFrom gap last l = ((last ≡ 0) → Gaps gap l) × ((0 < last) → Spaced gap last l)

before_rest-SpacedFrom :
    (gap last last' : ℕ) (o : Option ℕ) (l : List ℕ)
    → Effect gap last last' o
    → SpacedFrom gap last' l
    → SpacedFrom gap last (before_rest o l)
unfolding Effect
before_rest-SpacedFrom gap last last' none l e f = subst (λ n. SpacedFrom gap n l) e f
before_rest-SpacedFrom gap last last' (some t) l e f =
    let rest : Spaced gap t l = subst (λ n. Spaced gap n l) e.0 (f.1 (let x = e in omega arith)) in
    (λ z. rest, λ z. (elim e.2 [ inl x ↦ absurd (omega arith) | inr x ↦ x ], rest))

starts-SpacedFrom :
    (s : Settings) (lane : RestComponent) (calls : List Call) (p : ComponentRestPacer)
    → Ticking calls
    → SpacedFrom (rest_pace s lane) (last_at lane p) (starts s lane calls p)
unfolding starts
starts-SpacedFrom s lane [] p k = (λ e. tt, λ e. tt)
starts-SpacedFrom s lane (c ∷ calls) p k =
    before_rest-SpacedFrom (rest_pace s lane) (last_at lane p) (last_at lane (after_call s c p))
      (started s lane c p) (starts s lane calls (after_call s c p)) (call-Effect s lane c p k.0)
      (starts-SpacedFrom s lane calls (after_call s c p) k.1)

-- From a new pacer, whatever calls of `wait` and `try_consume` are made on the three lanes, as long
-- as the clock is positive: two starts that follow each other on a lane are at least the lane's gap
-- apart. The clock may go back.
pub starts-Gaps :
    (s : Settings) (lane : RestComponent) (calls : List Call)
    → Ticking calls
    → Gaps (rest_pace s lane) (starts s lane calls new_pacer)
unfolding last_at
starts-Gaps s order calls k = (starts-SpacedFrom s order calls new_pacer k).0 refl
starts-Gaps s hot calls k = (starts-SpacedFrom s hot calls new_pacer k).0 refl
starts-Gaps s normal calls k = (starts-SpacedFrom s normal calls new_pacer k).0 refl
