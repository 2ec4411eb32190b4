-- ===== src/WebSocket.antt =====
-- The WebSocket side: WebSocketParser.h, WebSocketParser.cpp, WebSocketServer.h and
-- WebSocketServer.cpp.
pub mod Opcode
pub mod Message
pub mod Json
pub mod Parser
pub mod Encoder
pub mod Connection
