-- ===== src/Slave.antt =====
-- internal/modes/slave: the channels of one slave, its connections to Twitch and their manager.
pub mod Connection
pub mod Manager
pub mod Client
mod Tests
