-- ===== src/Tests.antt =====
-- Tests of the model, and the theorems at concrete inputs.
mod World
mod Keys
mod Accounts
mod Chain
mod Mining
mod Ledgers
mod Sessions
mod Screens
mod Progress
mod Replay
