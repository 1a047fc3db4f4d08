-- ===== src/Http.antt =====
-- bomba_http.hpp.
pub mod Parse
pub mod Url
pub mod Form
pub mod Server
mod Tests
pub mod Client
