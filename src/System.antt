-- ===== src/System.antt =====
-- The parts of the program together: internal/modes/master/server/server.go sends, and
-- internal/modes/slave/client/client.go receives.
pub mod Slave
pub mod Login
pub mod Shutdown
pub mod SlaveExit
pub mod Rows
pub mod Delivery
pub mod Batch
mod Tests
