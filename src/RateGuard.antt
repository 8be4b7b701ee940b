-- ===== src/RateGuard.antt =====
-- rest_rate_guard.py: the guard in front of the Binance REST interface.
pub mod Types
pub mod Tracker
pub mod Calls
pub mod Runs
mod Tracking
pub mod Reserve
pub mod Halt
pub mod Lanes
