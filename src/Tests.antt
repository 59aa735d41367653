-- ===== src/Tests.antt =====
-- Tests of the definitions on concrete inputs, and the theorems at inputs that meet their hypotheses.
mod Tasks
mod Backends
mod Workers
mod Databases
mod Syncs
mod Beats
mod Windows
mod Crons
mod Hooks
mod Drains
mod Checks
mod Grammar
mod Replays
mod Clocks
mod Migrates
mod Admins
