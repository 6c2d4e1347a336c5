-- ===== src/Tests.antt =====
-- The theorems at concrete inputs: schedules, coordination and texts, and a plan with a worker and
-- a control-plane node.
mod Fixtures
mod Schedules
mod Plans
mod Runs
mod Upgrades
mod Admissions
mod Drains
