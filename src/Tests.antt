-- ===== src/Tests.antt =====
-- A small machine to run the models on, runs, and an instance of each property.
mod World
mod Commands
mod Runs
mod Instances
mod Scenarios
mod Trees
mod Counts
mod Images
mod Lines
