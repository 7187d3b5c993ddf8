-- ===== src/Irc.antt =====
-- internal/modes/slave/irc: the Twitch IRC wire format.
pub mod Slice
pub mod Message
pub mod Tags
pub mod Parse
pub mod Client
mod Tests
