-- ===== src/Irc/Client.antt =====
-- `IrcClient` and `IrcClientPool` (IrcClient.h, IrcClient.cpp).
pub mod State
pub mod Writer
pub mod Commands
pub mod Modes
pub mod Support
pub mod Process
pub mod Pool
