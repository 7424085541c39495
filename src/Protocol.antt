-- ===== src/Protocol.antt =====
-- What the handlers of backend/Simulator/MSIHandler.cpp and MESIHandler.cpp answer to a request, in
-- terms of the messages that they send and the directory that they leave.
pub mod Send
pub mod Look
pub mod Grant
pub mod Misses
pub mod Held
pub mod MemOp
pub mod Evictions
