-- ===== src/Rotation/Memory.antt =====
-- core/symbol_rotation_manager.py: how long a scanned symbol stays in the evaluated memory.
use binance_future_bot.Base.{
  ℕ, suc, ◌+◌, ◌*◌, ◌≤◌, ◌<◌, ◌≡◌, true, not, some, ◌⊎◌, inl, inr, List, [], ◌∷◌, map, mem, arith,
  ◌=?◌, text_eq, Bool-cases,
}
use binance_future_bot.Base.Text.{Text, upper}
use binance_future_bot.Base.Dict.{Dict, lookup, insert, lookup-insert, mem-keys-filter}
use binance_future_bot.Rotation.{
  expired, cleanup_expired, mark_each, mark_evaluated, draw_each, memory_min, memory_max,
  is_in_evaluated_memory,
}
use binance_future_bot.Rotation.Types.{Config, SymbolRotationManager}

-- `sym` stays in the memory for `lo` to `hi` minutes after `now`.
abbrev pub Marked : ℕ → ℕ → ℕ → Text → Dict Text ℕ → Type 0
Marked lo hi now sym d =
    (end : ℕ) × (lookup sym d ≡ some end) × (now + lo * 60000 ≤ end) × (end ≤ now + hi * 60000)

module _ (lo hi now : ℕ) (sym : Text) where
  insert-Marked :
      (s : Text) (ttl : ℕ) (d : Dict Text ℕ)
      → lo ≤ ttl
      → ttl ≤ hi
      → (upper s ≡ sym) ⊎ Marked lo hi now sym d
      → Marked lo hi now sym (insert (upper s) (now + ttl * 60000) d)
  insert-Marked s ttl d above below h =
      let found = lookup-insert (upper s) sym (now + ttl * 60000) d in
      elim (Bool-cases (upper s =? sym)) [
        | inl same ↦ (now + ttl * 60000, ground arith, omega arith, omega arith)
        | inr other ↦ elim h [
          | inl same ↦ absurd (ground (arith, text_eq.beq_iff (upper s) sym))
          | inr (end, there, first, last) ↦ (end, ground arith, first, last)
        ]
      ]

  mark_each-Marked :
      (randint : ℕ → ℕ → ℕ → ℕ) (i a b : ℕ) (symbols : List Text) (d : Dict Text ℕ)
      → ((j : ℕ) → (lo ≤ randint j a b) × (randint j a b ≤ hi))
      → (mem sym (map upper symbols) ≡ true) ⊎ Marked lo hi now sym d
      → Marked lo hi now sym (mark_each now (draw_each randint i a b symbols) d)
  unfolding mark_each
  mark_each-Marked randint i a b [] d r h = elim h [ inl e ↦ absurd (cc e) | inr m ↦ m ]
  mark_each-Marked randint i a b (s ∷ rest) d r h =
      let (above, below) = r i in
      let next : (mem sym (map upper rest) ≡ true)
          ⊎ Marked lo hi now sym (insert (upper s) (now + randint i a b * 60000) d) =
        elim (Bool-cases (upper s =? sym)) [
          | inl same ↦ inr (
              insert-Marked s (randint i a b) d above below
                (inl (ground (arith, text_eq.beq_iff (upper s) sym))))
          | inr other ↦ elim h [
            | inl found ↦ inl (ground arith)
            | inr marked ↦ inr (insert-Marked s (randint i a b) d above below (inr marked))
          ]
        ] in
      mark_each-Marked randint (suc i) a b rest _ r next

module _ (randint : ℕ → ℕ → ℕ → ℕ)
    (in_range : (i a b : ℕ) → a ≤ b → (a ≤ randint i a b) × (randint i a b ≤ b)) where
  mark_evaluated-Marked :
      (c : Config) (now : ℕ) (symbols : List Text) (m : SymbolRotationManager) (symbol : Text)
      → c.enable_rotation ≡ true
      → mem (upper symbol) (map upper symbols) ≡ true
      → Marked
          (memory_min c)
          (memory_max c)
          now
          (upper symbol)
          (mark_evaluated randint c now symbols m).evaluated
  unfolding mark_evaluated
  mark_evaluated-Marked c now [] m symbol on h = cc
  mark_evaluated-Marked c now (s ∷ rest) m symbol on h = rw on (
      mark_each-Marked (memory_min c) (memory_max c) now (upper symbol) randint 0 _ _ (s ∷ rest) _
        (λ j. in_range j (memory_min c) (memory_max c) (omega arith)) (inl h))

  -- When the rotation is on, and `randint` draws a number of its range: a symbol that is marked
  -- evaluated is in the memory at every time up to the shortest lifetime.
  pub mark_evaluated-is_in_evaluated_memory :
      (c : Config) (now later : ℕ) (symbols : List Text) (m : SymbolRotationManager) (symbol : Text)
      → c.enable_rotation ≡ true
      → mem (upper symbol) (map upper symbols) ≡ true
      → later < now + memory_min c * 60000
      → (is_in_evaluated_memory later symbol (mark_evaluated randint c now symbols m)).1 ≡ true
  unfolding is_in_evaluated_memory cleanup_expired expired
  mark_evaluated-is_in_evaluated_memory c now later symbols m symbol on h soon =
      let (end, found, first, last) = mark_evaluated-Marked c now symbols m symbol on h in
      mem-keys-filter (λ x. not (expired later x)) (upper symbol) end _ found (ground arith)
