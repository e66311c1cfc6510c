-- ===== src/Scenarios.antt =====
-- Runs of the theorems at concrete inputs: a sample process, database and redis server.
mod World
mod Server
mod Setup
mod Memory
mod Dispatch
mod Redis
mod Visits
mod Reaper
mod Provider
mod Pool
mod Load
mod Bench
