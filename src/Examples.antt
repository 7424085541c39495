-- ===== src/Examples.antt =====
-- Runs of the model on concrete caches, directories and simulations.
pub mod Data
pub mod Lines
pub mod Entries
pub mod Answers
pub mod Tasks
pub mod Loops
mod Graphs
mod Barriers
mod Joins
