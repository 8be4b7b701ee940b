-- ===== src/TokenBucket.antt =====
-- rest_rate_guard.py, `RestTokenBucket`: the bucket of request weight. Times are milliseconds, the
-- rate is in hundredths of a token per second, and an amount is in hundred-thousandths of a token,
-- so that a millisecond at a rate of one adds one. Each call reads the clock once.
pub mod Flow
use binance_future_bot.Base.{ℕ, ◌+◌, ◌-◌, ◌*◌, Bool, true, false, min, max, ltb, if◌then◌else◌}

pub record RestTokenBucket : Type 0 where
  pub capacity : ℕ
  pub tokens : ℕ
  pub refill_rate : ℕ
  pub last_refill : ℕ
  pub hard_stop_until : ℕ

unfoldable pub new_bucket : ℕ → ℕ → ℕ → RestTokenBucket
new_bucket now capacity refill = record {
  capacity = max capacity 100000;
  tokens = max capacity 100000;
  refill_rate = max refill 1;
  last_refill = now;
  hard_stop_until = 0;
}

unfoldable pub trigger_hard_stop : ℕ → ℕ → RestTokenBucket → RestTokenBucket
trigger_hard_stop now pause b = record b {
  hard_stop_until = max b.hard_stop_until (now + pause);
  tokens = 0;
}

unfoldable pub hard_stop_remaining : ℕ → RestTokenBucket → ℕ
hard_stop_remaining now b = b.hard_stop_until - now

unfoldable pub is_hard_stopped : ℕ → RestTokenBucket → Bool
unfolding hard_stop_remaining
is_hard_stopped now b = ltb 0 (hard_stop_remaining now b)

unfoldable pub clear_hard_stop : ℕ → RestTokenBucket → RestTokenBucket
clear_hard_stop now b = record b { hard_stop_until = 0; tokens = b.capacity; last_refill = now }

unfoldable pub refill : ℕ → RestTokenBucket → RestTokenBucket
refill now b =
    let elapsed = now - b.last_refill in
    if ltb 0 elapsed
    then record b {
      tokens = min b.capacity (b.tokens + elapsed * b.refill_rate);
      last_refill = now;
    }
    else b

abbrev pub cost : ℕ → ℕ
cost weight = max weight 1 * 100000

unfoldable pub try_acquire : ℕ → ℕ → RestTokenBucket → RestTokenBucket × Bool
unfolding refill
try_acquire now weight b =
    let full = refill now b in
    if ltb now b.hard_stop_until
    then (b, false)
    else if ltb full.tokens (cost weight)
    then (full, false)
    else (record full { tokens = full.tokens - cost weight }, true)
