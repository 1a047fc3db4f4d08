-- ===== src/Binary.antt =====
-- bomba_binary_protocol.hpp: numbers in little endian, and the binary format.
pub mod Number
pub mod Output
pub mod Input
pub mod Format
pub mod RoundTrip
pub mod Protocol
mod Tests
