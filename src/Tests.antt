-- ===== src/Tests.antt =====
-- Runs of the model on concrete inputs, and the theorems at inputs that meet their hypotheses.
mod Data
mod Tables
mod Registry
mod Pipeline
mod Patterns
mod Web
mod Service
mod Config
mod Runs
mod Session
mod Archive
mod App
mod Main
mod Migrations
