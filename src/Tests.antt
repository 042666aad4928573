-- ===== src/Tests.antt =====
-- Instances at which the theorems of the other modules apply.
mod AssocMap
mod Fixtures
mod Players
mod Settings
mod Teams
mod Pools
mod Queues
mod Phases
mod Attempts
mod Races
mod Runs
mod Service
mod Served
