-- ===== src/Rotation/Slices.antt =====
-- core/symbol_rotation_manager.py: what the two queues hold.
use binance_future_bot.Base.{
  ℕ, ◌-◌, ◌≤◌, ◌<◌, ◌≡◌, Bool, ◌||◌, sym, ◌∙◌, true, false, not, ◌&&◌, max, List, [], ◌∷◌, ◌++◌,
  arith, ltb, leb, length, length-append, length-take-le, drop, All, All-append, All-imp, All-take,
  filter, Distinct, Distinct-take, Distinct-append_one, mem, mem-append, ◌=?◌, text_eq, Bool-cases,
  inl, inr, if-both,
}
use binance_future_bot.Base.Text.{Text}
use binance_future_bot.Base.Dict.{Dict, keys}
use binance_future_bot.Rotation.Types.{Config, SymbolRotationManager, dormant, weakened}
use binance_future_bot.Rotation.{is_empty}
use binance_future_bot.Rotation.Queues.{
  state_is, state_of, push, push_all, push_until, push_wanted, may_rotate, accept_rotating,
  rotate_pool, rotate_pools, rotate_weakened, add_accepted, ranks_above, sort_ranked, is_hot_now,
  rotating_slice, priority_slice, hot_size_of, rotation_slices,
}

-- No symbol twice, and each with the property.
record Fine (P : Text → Type 0) (l : List Text) : Type 0 where
  distinct : Distinct l
  all : All P l

Fine-append :
    (P : Text → Type 0) (l : List Text) (s : Text)
    → Fine P l
    → mem s l ≡ false
    → P s
    → Fine P (l ++ s ∷ [])
Fine-append P l s f new h = record {
  distinct = Distinct-append_one s l f.distinct new;
  all = All-append P l (s ∷ []) f.all (h, tt);
}

module _ (life : Dict Text Text) where
  abbrev Awake : Text → Type 0
  Awake s = state_is life s dormant ≡ false

  push-Fine : (sym : Text) (l : List Text) → Fine Awake l → Fine Awake (push life sym l)
  unfolding push
  push-Fine sym l f = elim (Bool-cases (is_empty sym)) [
    | inl blank ↦ rw (blank, push) f
    | inr named ↦ elim (Bool-cases (mem sym l)) [
      | inl there ↦ rw (named, there, push) f
      | inr new ↦ elim (Bool-cases (state_is life sym dormant)) [
        | inl sleeps ↦ rw (named, new, sleeps, push) f
        | inr awake ↦ rw (named, new, awake, push) (Fine-append Awake l sym f new awake)
      ]
    ]
  ]

  push_all-Fine : (symbols l : List Text) → Fine Awake l → Fine Awake (push_all life symbols l)
  unfolding push_all
  push_all-Fine [] l f = f
  push_all-Fine (sym ∷ rest) l f = push_all-Fine rest (push life sym l) (push-Fine sym l f)

  push_until-Fine :
      (wanted : Text → Bool) (size : ℕ) (symbols l : List Text)
      → Fine Awake l
      → Fine Awake (push_until life wanted size symbols l)
  unfolding push_until push_wanted
  push_until-Fine wanted size [] l f = f
  push_until-Fine wanted size (sym ∷ rest) l f =
      let next = push_wanted life wanted sym l in
      let now : Fine Awake next = if-both (Fine Awake) (wanted sym) (push-Fine sym l f) f in
      let again = push_until-Fine wanted size rest next now in
      elim (Bool-cases (leb size (length next))) [
        | inl full ↦ rw (full, push_until) now
        | inr room ↦ rw (room, push_until) again
      ]

  priority_slice-Fine :
      (c : Config) (scores : Dict Text ℕ) (size : ℕ) (fast primary universe : List Text)
      → Fine Awake (priority_slice c scores life size fast primary universe)
  unfolding priority_slice
  priority_slice-Fine c scores size fast primary universe =
      let above = ranks_above scores primary in
      let hot =
        push_until-Fine (is_hot_now c scores life primary) size (sort_ranked above universe) _
          (push_all-Fine fast [] (record { distinct = tt; all = tt })) in
      if-both (Fine Awake) _ (push_until-Fine (λ _. true) size (sort_ranked above primary) _ hot)
        hot

  module _ (blocked : List Text) (target : ℕ) where
    -- What each element of the rotating queue satisfies, and how many there are.
    record Turn (l : List Text) : Type 0 where
      fine : Fine (λ s. may_rotate blocked life s ≡ true) l
      size : length l ≤ target

    Turn-append :
        (l : List Text) (sym : Text)
        → accept_rotating blocked life l sym ≡ true
        → length l < target
        → Turn l
        → Turn (l ++ sym ∷ [])
    Turn-append l sym h room t =
        let longer = length-append l (sym ∷ []) in
        record {
          fine = Fine-append _ l sym t.fine (ground arith) (ground arith);
          size = omega arith;
        }

    rotate_pool-Turn :
        (pool waiting rotating : List Text)
        → length rotating < target
        → Turn rotating
        → Turn (rotate_pool blocked life target pool (waiting, rotating)).1
    unfolding rotate_pool
    rotate_pool-Turn [] waiting rotating room t = t
    rotate_pool-Turn (sym ∷ rest) waiting rotating room t =
        elim (Bool-cases (accept_rotating blocked life rotating sym)) [
          | inr other ↦ rw (other, rotate_pool) (rotate_pool-Turn rest waiting rotating room t)
          | inl fit ↦ elim (Bool-cases (state_is life sym weakened)) [
            | inl weak ↦
                rw (fit, weak, rotate_pool)
                  (rotate_pool-Turn rest (waiting ++ sym ∷ []) rotating room t)
            | inr strong ↦
                let next = Turn-append rotating sym fit room t in
                elim (Bool-cases (leb target (length (rotating ++ sym ∷ [])))) [
                  | inl full ↦ rw (fit, strong, full, rotate_pool) next
                  | inr open_still ↦
                      rw (fit, strong, open_still, rotate_pool)
                        (rotate_pool-Turn rest waiting (rotating ++ sym ∷ []) (ground arith) next)
                ]
          ]
        ]

    rotate_pools-Turn :
        (pools : List (List Text)) (x : List Text × List Text)
        → length x.1 < target
        → Turn x.1
        → Turn (rotate_pools blocked life target pools x).1
    unfolding rotate_pools
    rotate_pools-Turn [] x room t = t
    rotate_pools-Turn (pool ∷ pools) x room t =
        let next = rotate_pool-Turn pool x.0 x.1 room t in
        let (waiting, rotating) = rotate_pool blocked life target pool x in
        elim (Bool-cases (leb target (length rotating))) [
          | inl full ↦ rw (full, rotate_pools) next
          | inr open_still ↦
              rw (open_still, rotate_pools)
                (rotate_pools-Turn pools (waiting, rotating) (ground arith) next)
        ]

    add_accepted-Turn :
        (sym : Text) (rotating : List Text)
        → length rotating < target
        → Turn rotating
        → Turn (add_accepted blocked life sym rotating)
    unfolding add_accepted
    add_accepted-Turn sym rotating room t =
        elim (Bool-cases (accept_rotating blocked life rotating sym)) [
          | inl fit ↦ rw (fit, add_accepted) (Turn-append rotating sym fit room t)
          | inr other ↦ rw (other, add_accepted) t
        ]

    rotate_weakened-Turn :
        (waiting rotating : List Text)
        → length rotating < target
        → Turn rotating
        → Turn (rotate_weakened blocked life target waiting rotating)
    unfolding rotate_weakened
    rotate_weakened-Turn [] rotating room t = t
    rotate_weakened-Turn (sym ∷ rest) rotating room t =
        let next = add_accepted blocked life sym rotating in
        let now = add_accepted-Turn sym rotating room t in
        elim (Bool-cases (leb target (length next))) [
          | inl full ↦ rw (full, rotate_weakened) now
          | inr open_still ↦
              rw (open_still, rotate_weakened) (rotate_weakened-Turn rest next (ground arith) now)
        ]

    rotating_slice-Turn :
        (pools : List (List Text)) → 0 < target → Turn (rotating_slice blocked life target pools)
    unfolding rotating_slice
    rotating_slice-Turn pools some_room =
        let start : Turn [] = record {
          fine = record { distinct = tt; all = tt };
          size = omega arith;
        } in
        let found = rotate_pools-Turn pools ([], []) some_room start in
        let (waiting, rotating) = rotate_pools blocked life target pools ([], []) in
        elim (Bool-cases (ltb (length rotating) target)) [
          | inl short ↦
              rw (short, rotating_slice)
                (rotate_weakened-Turn waiting rotating (ground arith) found)
          | inr long ↦ rw (long, rotating_slice) found
        ]

neither : (a b c : Bool) → (not a && not b && c) ≡ true → (a ≡ false) × (b ≡ false)
neither a b c h = ground arith

neither_of : (a b : Bool) → (a || b) ≡ false → (b ≡ false) × (a ≡ false)
neither_of a b h = ground arith

-- A symbol that may rotate is in neither of the two blocked lists, and not dormant.
may_rotate-out :
    (evaluated priority : List Text) (life : Dict Text Text) (s : Text)
    → may_rotate (evaluated ++ priority) life s ≡ true
    → (mem s priority ≡ false) × (mem s evaluated ≡ false) × ((state_of life s =? dormant) ≡ false)
unfolding may_rotate
may_rotate-out evaluated priority life s h =
    let (out, awake) = neither _ _ _ h in
    let (a, b) = neither_of _ _ (sym (mem-append s evaluated priority) ∙ out) in (a, b, awake)

-- When the rotation is on: no symbol stands twice in the priority queue, the queue holds at most
-- the hot size, and no symbol in it is dormant.
priority-Fine :
    (c : Config) (now : ℕ) (scores : Dict Text ℕ) (life : Dict Text Text)
    (primary extended fast : List Text) (m : SymbolRotationManager)
    → let priority = (rotation_slices c now scores life primary extended fast m).1.0 in
      Distinct priority
      × (length priority ≤ hot_size_of c)
      × All (λ s. state_is life s dormant ≡ false) priority
unfolding rotation_slices
priority-Fine c now scores life primary extended fast m =
    let size = hot_size_of c in
    let universe = primary ++ filter (λ s. not (mem s primary)) extended in
    let ranked = priority_slice c scores life size fast primary universe in
    let fine = priority_slice-Fine life c scores size fast primary universe in
    (
      Distinct-take size ranked fine.distinct,
      length-take-le size ranked,
      All-take _ size ranked fine.all,
    )

-- When the rotation is on: no symbol stands twice in the rotating queue, which holds at most the
-- pool size less the priority queue, or one; and each of its symbols is neither in the priority
-- queue nor in the evaluated memory, and not dormant.
pub rotating-Turn :
    (c : Config) (now : ℕ) (scores : Dict Text ℕ) (life : Dict Text Text)
    (primary extended fast : List Text) (m : SymbolRotationManager)
    → let (m', (priority, rotating)) = rotation_slices c now scores life primary extended fast m in
      Distinct rotating
      × (length rotating ≤ max (c.universe_pool_size - length priority) 1)
      × All
          (λ s.
            (mem s priority ≡ false)
            × (mem s (keys m'.evaluated) ≡ false)
            × ((state_of life s =? dormant) ≡ false))
          rotating
unfolding rotation_slices
rotating-Turn c now scores life primary extended fast m =
    let (m', (priority, rotating)) = rotation_slices c now scores life primary extended fast m in
    let target = max (c.universe_pool_size - length priority) 1 in
    let blocked = keys m'.evaluated ++ priority in
    let t =
      rotating_slice-Turn life blocked target
        (drop (length priority) primary ∷ extended ∷ primary ∷ []) (omega arith) in
    (
      t.fine.distinct,
      t.size,
      All-imp (λ s. may_rotate blocked life s ≡ true) _ rotating
          (λ s. may_rotate-out (keys m'.evaluated) priority life s) t.fine.all,
    )
