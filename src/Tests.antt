-- ===== src/Tests.antt =====
-- Concrete runs of the components: each theorem about the program at an input that meets its
-- hypotheses, and the answers of the operations on small inputs.
mod Pacing
mod Guard
mod Pool
mod Scan
mod Claims
mod Candidates
mod Funnel
mod Events
mod Exits
mod Ledger
mod Validation
