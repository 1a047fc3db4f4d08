-- ===== src/Download.antt =====
-- bomba_download_server.hpp: responders that serve the files of a folder.
pub mod Extensions
pub mod Dynamic
pub mod Caching
mod Tests
