-- ===== src/Tests.antt =====
-- Runs on concrete inputs, and the theorems at such inputs.
mod Tables
mod Buffers
mod Lifetimes
mod References
pub mod Worlds
mod Rounds
mod Calls
mod Publishing
mod Withdrawals
mod Histories
mod Interfaces
mod Copies
mod Schedules
mod Tools
mod Messages
mod Journeys
mod Sample
mod Roots
