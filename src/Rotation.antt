-- ===== src/Rotation.antt =====
-- core/symbol_rotation_manager.py: the memory of evaluated symbols. The clock reading is an
-- argument, and so is the source of random lifetimes.
pub mod Types
pub mod Queues
pub mod Slices
pub mod Memory
use binance_future_bot.Base.{
  ℕ, zero, suc, ◌+◌, ◌-◌, ◌*◌, Bool, true, false, ◌&&◌, ◌||◌, not, max, Option, none, some, List,
  [], ◌∷◌, ◌++◌, ltb, leb, ◌==◌, if◌then◌else◌, length, take, drop, filter, map, mem, ◌=?◌, text_eq,
}
use binance_future_bot.Base.Text.{Text, upper}
use binance_future_bot.Base.Dict.{Dict, lookup, insert, delete, keys}
use Types.{
  Config, SymbolRotationManager, dormant, weakened, active, priority_states, scannable_states,
}

abbrev pub is_empty : Text → Bool
is_empty [] = true
is_empty (_ ∷ _) = false

unfoldable pub expired : ℕ → Text × ℕ → Bool
expired now x = leb x.1 now

unfoldable pub cleanup_expired : ℕ → SymbolRotationManager → SymbolRotationManager × ℕ
unfolding expired
cleanup_expired now m = (
  record m { evaluated = filter (λ x. not (expired now x)) m.evaluated },
  length (filter (expired now) m.evaluated),
)

unfoldable pub maybe_full_purge : Config → ℕ → SymbolRotationManager → SymbolRotationManager × Bool
maybe_full_purge c now m =
    if not c.enable_rotation
    then (m, false)
    else if ltb (now - m.last_full_purge_at) (max c.purge_ms 1800000)
    then (m, false)
    else (
      record { evaluated = []; last_full_purge_at = now; rotation_cycle = suc m.rotation_cycle },
      true,
    )

unfoldable pub is_in_evaluated_memory :
    ℕ → Text → SymbolRotationManager → SymbolRotationManager × Bool
unfolding cleanup_expired
is_in_evaluated_memory now symbol m =
    let (m', _) = cleanup_expired now m in (m', mem (upper symbol) (keys m'.evaluated))

-- The loop of `mark_evaluated`, with the lifetime that `random.randint` draws for each symbol.
unfoldable pub mark_each : ℕ → List (Text × ℕ) → Dict Text ℕ → Dict Text ℕ
mark_each now [] d = d
mark_each now ((symbol, ttl_min) ∷ rest) d =
    mark_each now rest (insert (upper symbol) (now + ttl_min * 60000) d)

abbrev pub memory_min : Config → ℕ
memory_min c = max c.memory_min_minutes 1

abbrev pub memory_max : Config → ℕ
memory_max c = max c.memory_max_minutes (memory_min c)

abbrev pub draw_each : (ℕ → ℕ → ℕ → ℕ) → ℕ → ℕ → ℕ → List Text → List (Text × ℕ)
draw_each randint i lo hi [] = []
draw_each randint i lo hi (s ∷ rest) = (s, randint i lo hi) ∷ draw_each randint (suc i) lo hi rest

-- `randint i lo hi` is the `i`-th draw.
unfoldable pub mark_evaluated :
    (ℕ → ℕ → ℕ → ℕ) → Config → ℕ → List Text → SymbolRotationManager → SymbolRotationManager
unfolding cleanup_expired mark_each
mark_evaluated randint c now [] m = m
mark_evaluated randint c now (s ∷ rest) m =
    if not c.enable_rotation
    then m
    else let (m', _) = cleanup_expired now m in
      record m' {
        evaluated =
            mark_each now (draw_each randint 0 (memory_min c) (memory_max c) (s ∷ rest))
              m'.evaluated;
      }

unfoldable pub clear_each : List Text → Dict Text ℕ → Dict Text ℕ
clear_each [] d = d
clear_each (s ∷ rest) d = clear_each rest (delete (upper s) d)

unfoldable pub clear_evaluated : List Text → SymbolRotationManager → SymbolRotationManager
unfolding clear_each
clear_evaluated symbols m = record m { evaluated = clear_each symbols m.evaluated }
