-- ===== src/Tcp.antt =====
-- bomba_tcp_server.hpp: what the server keeps of a connection's input, and its sessions.
pub mod Buffer
pub mod Stream
pub mod Connection
pub mod Sessions
mod Tests
