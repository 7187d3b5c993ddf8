-- ===== src/Master.antt =====
-- internal/modes/master: the HTTP server and the gRPC server of the master.
pub mod Http
pub mod Stream
pub mod Server
mod Tests
