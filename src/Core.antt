-- ===== src/Core.antt =====
-- bomba_core.hpp: what the other parts stand on.
pub mod Buffer
pub mod Callable
pub mod Flags
pub mod Integer
pub mod Path
pub mod Serialiser
pub mod Structured
pub mod Tcp
mod Tests
