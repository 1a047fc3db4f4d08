-- ===== src/Http/Server.antt =====
-- bomba_http.hpp, HttpServer::Session: answering the requests of one connection. The responders are
-- parameters; what one does is described by the responses it starts and by how it ends. The bytes that
-- go to `writer` are collected in `sent`, in whatever pieces the streaming buffer hands them on.
pub mod Request
pub mod Respond
pub mod Responders
pub mod Get
pub mod Malformed
pub mod Refused
