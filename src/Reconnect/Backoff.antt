-- ===== src/Reconnect/Backoff.antt =====
-- ws_reconnect.py: the delays of a row of failed attempts.
use native.Mathlib.Nat.{pow-le-pow_right, mul-le-mul_left}
use binance_future_bot.Base.{ℕ, zero, suc, ◌*◌, ◌^◌, ◌≤◌, ◌<◌, List, [], ◌∷◌, arith, min, max}
use binance_future_bot.Reconnect.{WsReconnectPolicy, new_policy, next_delay}

-- The delays of the next `n` attempts.
unfoldable pub delays : ℕ → WsReconnectPolicy → List ℕ
delays zero p = []
delays (suc n) p = let (p', delay) = next_delay p in delay ∷ delays n p'

-- No delay is below `low` or the one before it, and none is above `high`.
abbrev pub Rising : ℕ → ℕ → List ℕ → Type 0
Rising low high [] = Unit
Rising low high (d ∷ l) = (low ≤ d) × (d ≤ high) × Rising d high l

delays-Rising_from :
    (n low : ℕ) (p : WsReconnectPolicy)
    → (0 < p.max_attempts → p.attempt ≤ p.max_attempts)
    → low ≤ min (p.min_delay * 2 ^ p.attempt) p.max_delay
    → Rising low p.max_delay (delays n p)
unfolding delays next_delay
delays-Rising_from zero low p bound h = tt
delays-Rising_from (suc n) low p bound h =
    let p' = (next_delay p).0 in
    let more : p.attempt ≤ p'.attempt = ground arith in
    let power = pow-le-pow_right {n = 2} (let e : 0 < 2 = omega arith in e) more in
    let product = mul-le-mul_left p.min_delay power in
    (
      h,
      omega arith,
      delays-Rising_from n (min (p.min_delay * 2 ^ p.attempt) p.max_delay) p'
          (λ some_limit. ground arith) (omega arith),
    )

-- From a new policy, whatever the number of attempts: the delays never fall, the first is at least the
-- minimum, and none is above the maximum.
delays-Rising :
    (n min_delay max_delay max_attempts : ℕ)
    → let p = new_policy min_delay max_delay max_attempts in
      Rising (max min_delay 500) (max max_delay (max min_delay 500)) (delays n p)
unfolding new_policy
delays-Rising n min_delay max_delay max_attempts =
    delays-Rising_from n (max min_delay 500) (new_policy min_delay max_delay max_attempts)
      (λ some_limit. omega arith) (omega arith)
