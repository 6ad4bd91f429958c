-- ===== src/Globals.antt =====
-- mind.h: the global variables that the state machines of one time-aware system share, with the
-- members that the modelled machines use. `Globals.Init` is their initialisation in mind.c.
mod Records
pub mod Init
pub mod MdEntity
pub use Records.*
