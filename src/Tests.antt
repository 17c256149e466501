-- ===== src/Tests.antt =====
-- Concrete runs of the program, and the theorems at them.
mod Fixtures
mod Records
mod Rules
mod Stores
mod Runs
mod Pipeline
mod Service
mod Settings
mod Worker
mod Marks
