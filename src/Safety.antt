-- ===== src/Safety.antt =====
-- The invariant of the simulation: directories are consistent, messages come from contexts and
-- speak of 48-bit addresses; and the faults that it leaves open, among them no access to
-- `contexts` or to a processor mask out of bounds.
pub mod Members
pub mod Primitives
pub mod Rules
pub mod Shared
pub mod Msi
pub mod MesiCases
pub mod Mesi
pub mod Loops
pub mod Lines
pub mod Serve
pub mod Node
pub mod Run
use syncd_sim.Base.{ℕ, ◌^◌, ◌<◌, ◌≡◌, true, List, Option, some, All, Table}
use syncd_sim.Base.Effects.{
  Fault, no_context, no_processor, no_message, no_line, no_victim, unknown_type, assertion,
  stray_memory, out_of_fuel, Exec,
}
use syncd_sim.Base.Effects.Ensures.{Ensures}
use syncd_sim.Types.{Message}
use syncd_sim.Cache.{Cache, CacheLine}
use syncd_sim.Cache.Geometry.{IsDefault}
use syncd_sim.Directory.Entries.{IsDirectory}
use syncd_sim.Context.{Config, Context, World}

pub record IsMessage (n : ℕ) (msg : Message) : Type 0 where
  pub sender : msg.source_id < n
  pub address : msg.addr < 2 ^ 48

-- A valid line holds a line of a 48-bit address.
abbrev pub IsTagged : CacheLine → Type 0
IsTagged l = l.valid ≡ true → l.tag < 2 ^ 37

pub record IsContext (n : ℕ) (c : Context) : Type 0 where
  pub directory : IsDirectory n c.directory
  pub incoming : All (IsMessage n) c.incoming_msg_queue
  pub to_cache : All (IsMessage n) c.cache_msg_queue
  pub blocked :
      (addr : ℕ) (q : List Message) → c.handler.blocked_msg_map addr ≡ some q → All (IsMessage n) q
  pub operation : c.current_mem_op.addr < 2 ^ 48
  pub geometry : IsDefault c.cache
  pub tags : (k : ℕ) → All IsTagged (c.cache.sets k)

pub record IsWorld (cfg : Config) (w : World) : Type 0 where
  pub each : (id : ℕ) → IsContext cfg.num_contexts (w id)

-- The faults that an execution may still end in: none of an access to `contexts` or to a mask.
abbrev pub InBounds : Fault → Type 0
InBounds no_context = ⊥
InBounds no_processor = ⊥
InBounds no_message = Unit
InBounds no_line = Unit
InBounds no_victim = Unit
InBounds unknown_type = Unit
InBounds assertion = Unit
InBounds stray_memory = ⊥
InBounds out_of_fuel = Unit

-- Started in a consistent world, the program stays in bounds and leaves the world consistent.
abbrev pub IsSafe : Config → {A : Type 0} → (A → Type 0) → Exec World A → Type 0
IsSafe cfg Q m = Ensures (IsWorld cfg) InBounds Q m
