-- ===== src/Fuel.antt =====
-- The loops of backend/Simulator whose number of rounds the model bounds.
pub mod Triples
pub mod Context
pub mod MemOp
pub mod Processor
pub mod Cases
pub mod Requests
pub mod Blocked
use syncd_sim.Base.{◌≢◌}
use syncd_sim.Base.Effects.{Fault, out_of_fuel}

-- A fault of the program, not of the model.
abbrev pub IsReal : Fault → Type 0
IsReal e = e ≢ out_of_fuel
