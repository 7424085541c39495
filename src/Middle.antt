-- ===== src/Middle.antt =====
-- middle: the layer that makes task graphs of traces.
pub mod Writer
pub mod Places
pub mod Sorted
pub mod Stored
pub mod Indexed
pub mod Layout
pub mod Reopened
pub mod Distinct
pub mod Running
pub mod Complete
pub mod Edges
pub mod Order
pub mod Follows
pub mod Ends
pub mod Barrier
pub mod Contexts
pub mod Joins
