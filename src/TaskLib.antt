-- ===== src/TaskLib.antt =====
-- common/taskLib: the library that tasks and task graphs are kept in, and that the simulator reads.
pub mod Bytes
pub mod Ids
pub mod Actions
pub mod Record
pub mod Codec
pub mod RoundTrip
pub mod Built
pub mod Views
pub mod Blocks
pub mod Info
pub mod InfoTrip
pub mod Graph
pub mod Remove
pub mod EndOfFile
