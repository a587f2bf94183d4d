-- ===== src/Examples.antt =====
-- The theorems at concrete states of the server.
mod Isolation
mod Histories
mod Keys
mod Runs
mod Outcomes
mod Agents
mod Demo
mod Settings
