-- ===== src/Http.antt =====
-- The HTTP requests: HttpParser.h, HttpParser.cpp, HttpServer.h and HttpServer.cpp.
pub mod Query
pub mod Parser
pub mod Response
pub mod Processors
pub mod Connection
pub mod Tests
pub mod Server
