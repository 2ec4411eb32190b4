-- ===== src/Lib.antt =====
-- SudaGureum: an IRC client that stays connected, with HTTP and WebSocket servers for its users.
--
-- Parts, and the files that model them (paths from the repository's root):
-- - Base: lists over the native numbers, byte strings, associative containers with a comparator
--   (Comparator.h), and an interface for what the code takes from Boost, with its documented
--   behaviour as laws. A `std::string` or a `std::vector<uint8_t>` is the list of its bytes; `char`
--   is a byte from 0 to 255.
-- - Irc/Message, Irc/Parser: SudaGureum/IrcParser.h and SudaGureum/IrcParser.cpp, and encodeMessage
--   of SudaGureum/IrcClient.cpp. `parse` is the loop over the bytes of a read, `parse_message` is
--   parseMessage; the messages that the callback gets are returned in order.
-- - Irc/Client: SudaGureum/IrcClient.h and SudaGureum/IrcClient.cpp. State has the data, Writer the
--   write buffer (with its threads as a step relation in Writer/Order), Commands what the client
--   sends and how it connects and closes, Modes the loop over the letters of MODE, Support the
--   branch for RPL_ISUPPORT, Process procMessage with a function for each branch, and handleRead,
--   Pool the table of IrcClientPool, with its signals in Pool/Signals.
--   A handler returns, raises an exception, or is undefined, where the code indexes out of range.
--   Boost's signals are a list of the events fired.
-- - WebSocket/Opcode, Message, Parser, Encoder, Connection: SudaGureum/WebSocketParser.h,
--   SudaGureum/WebSocketParser.cpp and the connection of SudaGureum/WebSocketServer.cpp. The parser
--   hands its requests to the connection, which writes frames with encodeFrame; rapidjson is the
--   parameter WebSocket/Json. In Encoder a read through a number taken for a pointer is an outcome of
--   its own.
-- - Socket: BufferedWriterSocket of SudaGureum/Socket.h, the queue under the WebSocket connection,
--   with its threads as a step relation.
-- - Utility: decodeURIComponent, decodeQueryString, the hexadecimal digest, encodeBase64 and
--   decodeBase64 of SudaGureum/Utility.cpp and SudaGureum/Utility.h.
-- - Http/Query, Http/Parser: SudaGureum/HttpParser.h and SudaGureum/HttpParser.cpp: query strings,
--   request targets, and the callbacks of http-parser, whose calls are a list.
-- - Http/Response, Http/Processors, Http/Connection: the connection of SudaGureum/HttpServer.h and
--   SudaGureum/HttpServer.cpp, and the processors of SudaGureum/Application.cpp. Response has the text
--   of a response, Requests procHttpRequest, Reads HttpParser::parse and handleRead. The connection
--   queues its frames with the writer of Socket, reads with the parser of Http/Parser, and hands the
--   rest of a read to WebSocket/Connection when a client upgrades. The run of http_parser_execute on
--   a read is an argument.
-- - Session: SudaGureum/Session.h and SudaGureum/Session.cpp.
-- - Configure: SudaGureum/Configure.h and SudaGureum/Configure.cpp, once the file is read.
-- - Archive: SudaGureum/Archive.h, SudaGureum/Archive.cpp and ArchiveDB of SudaGureum/DB.cpp: the log
--   lines, over an interface for SQLite.
-- - Scrypt: SudaGureum/SCrypt.cpp. User: the contexts of SudaGureum/User.h and SudaGureum/User.cpp,
--   which authorize by a password, with fetchPasswordHash of SudaGureum/DB.cpp and the hash of Scrypt,
--   or by the key of a session of Session. User/Servers: the servers of a user, whose clients
--   are made by the pool of Irc/Client. User/Table: the table of the users.
-- - Http/Server: HttpServer of SudaGureum/HttpServer.h and SudaGureum/HttpServer.cpp: the accept loop with
--   the events of its connections; Http/Server/Setup its constructor, which reads the certificates with
--   Utility/Files (readFile of SudaGureum/Utility.cpp).
-- - Socket/Layers: the plain and the SSL socket of SudaGureum/Socket.cpp, and what the queue forwards to
--   them. Utility/Date: generateHttpDateTime of SudaGureum/Utility.cpp.
-- - Database: databaseFile and the constructors of ArchiveDB and UserDB of SudaGureum/DB.cpp, over an
--   interface for the file system and SQLite.
-- - Event: SudaGureum/Event.h, over an interface for Boost's signals; a handler changes a state, not the
--   event.
-- - Threads: SudaGureum/MtIoService.h and SudaGureum/MtIoService.cpp: the threads in which the handlers run.
-- - Log: the set-up of SudaGureum/Log.cpp. Application: SudaGureum/Application.cpp, which starts the parts,
--   sends what is typed, and ends.
--
-- Every loop is structural recursion on the bytes, words, pieces or messages that the code goes
-- through, but for the search for a free session key, which runs on fuel: as many keys as there are
-- sessions and one more, which is enough when the generator does not repeat itself; and the loop that
-- reads a file, whose fuel is two rounds more than there are bytes. Critical
-- sections and atomic exchanges are atomic steps.
-- The laws of `^` on bytes are checked for all pairs of bytes by evaluation.
--
-- Not modelled: asio and SSL beyond which operations are pending and what their completions lead to;
-- what the resolver finds; the lines that are logged; what a write does through the null pointer that a
-- client without a nickname has for a socket; Boost's signals below SudaGureum/Event.h.
-- Memory is not bounded, and time is an argument where the code asks the clock.
-- What the code does not use of the data is left out: `encoding_` of the client.
mod Base
pub mod Irc
pub mod WebSocket
pub mod Socket
pub mod Utility
pub mod Http
pub mod Session
pub mod Configure
pub mod Archive
pub mod Scrypt
pub mod User
pub mod Threads
pub mod Log
pub mod Application
pub mod Event
pub mod Database
