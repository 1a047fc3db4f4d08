-- ===== src/Json.antt =====
-- bomba_json.hpp: BasicJson.
pub mod Format
pub mod Input
pub mod Object
pub mod Output
pub mod RoundTrip
mod Tests
