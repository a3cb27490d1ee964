-- ===== src/Examples.antt =====
-- The theorems at concrete inputs.
mod Data
mod Cover
mod Days
mod Workers
mod Planner
mod Jobs
mod Phases
mod Names
mod Pools
mod Writers
mod Services
mod Runs
mod Whole
