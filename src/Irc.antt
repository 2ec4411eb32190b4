-- ===== src/Irc.antt =====
-- The IRC client side: IrcParser.h, IrcParser.cpp, IrcClient.h and IrcClient.cpp.
pub mod Message
pub mod Parser
pub mod Client
