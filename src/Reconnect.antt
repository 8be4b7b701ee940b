-- ===== src/Reconnect.antt =====
-- ws_reconnect.py: the backoff between reconnects of a socket. Times are milliseconds; the number of
-- attempts is natural, where a value of 0 or below means no limit.
pub mod Backoff
use binance_future_bot.Base.{ℕ, suc, ◌+◌, ◌*◌, ◌^◌, min, max, ltb, if◌then◌else◌}

pub record WsReconnectPolicy : Type 0 where
  pub min_delay : ℕ
  pub max_delay : ℕ
  pub max_attempts : ℕ
  pub attempt : ℕ

unfoldable pub new_policy : ℕ → ℕ → ℕ → WsReconnectPolicy
new_policy min_delay max_delay max_attempts = record {
  min_delay = max min_delay 500;
  max_delay = max max_delay (max min_delay 500);
  max_attempts = max_attempts;
  attempt = 0;
}

unfoldable pub next_delay : WsReconnectPolicy → WsReconnectPolicy × ℕ
next_delay p = (
  record p {
    attempt = if ltb 0 p.max_attempts then min (p.attempt + 1) p.max_attempts else p.attempt + 1;
  },
  min (p.min_delay * 2 ^ p.attempt) p.max_delay,
)

unfoldable pub reset : WsReconnectPolicy → WsReconnectPolicy
reset p = record p { attempt = 0 }
