-- ===== src/Scenarios.antt =====
-- Small requests, and the theorems at work on them.
mod Sample
mod Decisions
mod Finalization
mod Amounts
mod Locks
mod Mail
mod Drains
mod Board
mod Queue
mod Places
