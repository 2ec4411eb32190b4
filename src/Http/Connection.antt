-- ===== src/Http/Connection.antt =====
-- `HttpConnection` (HttpServer.h, HttpServer.cpp): its state, what it sends, and its timer. The frames go
-- through the write queue of Socket.h; the socket and the pending read and timer are flags.
pub mod Requests
pub mod Reads
pub mod Answers
pub mod Stuck
pub mod Upgrade
pub mod KeepAlive
pub mod Tests
use suda_gureum.Base.{
  ℕ, ◌+◌, ◌-◌, ◌%◌, Bool, true, false, List, [], ◌∷◌, Option, if◌then◌else◌, Bytes,
}
use suda_gureum.Base.Boost.{Boost}
use suda_gureum.Http.Parser.{Parser, MethodNumbers, Request, initial}
use suda_gureum.Socket.{BufferedWriter, emplace_back, async_write}
use suda_gureum.Socket
use suda_gureum.Http.Processors.{Processors}
use suda_gureum.Http.Response.{Response, Zlib, plain_response, bad_request}
use suda_gureum.Socket.{BufferedWriter, emplace_back, async_write}
use suda_gureum.Utility.Base64.{ToBase64}

-- What the connection uses of the server, of the libraries and of the configuration.
pub record Environment : Type 0 where
  pub boost : Boost
  pub zlib : Zlib
  pub numbers : MethodNumbers
  pub hash_sha1 : Bytes → Bytes
  pub to_base64 : ToBase64
  pub processors : Processors
  -- the text of the time of the call
  pub date : Bytes
  -- `http_server_keep_alive_timeout_sec` as `getAs` reads it, in decimal; `none` is its exception
  pub keep_alive_timeout : Option Bytes

pub record Connection : Type 0 where
  pub parser : Parser
  pub continue_read : Bool
  pub upgrade_web_socket : Bool
  -- a `size_t`
  pub keep_alive_count : ℕ
  pub writer : BufferedWriter
  -- `socket_` is not null; an upgrade moves it to the WebSocket connection
  pub has_socket : Bool
  pub socket_open : Bool
  pub keep_alive_timer : Bool
  pub read_pending : Bool

abbrev pub new_connection : ℕ → Connection
new_connection keep_alive_max_count = record {
  parser = initial;
  continue_read = true;
  upgrade_web_socket = false;
  keep_alive_count = keep_alive_max_count;
  writer = Socket.initial;
  has_socket = true;
  socket_open = true;
  keep_alive_timer = false;
  read_pending = false;
}

-- `keepAliveCount_ --`
abbrev pub count_down : ℕ → ℕ
count_down n = (n + 18446744073709551615) % 18446744073709551616

-- All writes have the handler `handleWrite`, which has the number 0.
pub send_raw : Bytes → Connection → Connection
send_raw bytes c = record c { writer = async_write (emplace_back bytes 0 c.writer) }

-- The head and the body of a response, each by a write of its own.
pub send_response : Bytes × Bytes → Connection → Connection
unfolding send_raw
send_response (head, body) c = send_raw body (send_raw head c)

pub send_bad_request_response : Environment → Connection → Connection
unfolding send_response
send_bad_request_response env c = send_response (plain_response env.boost env.date bad_request) c

abbrev pub read : Connection → Connection
read c = record c { read_pending = true }

abbrev pub cancel_keep_alive_timeout : Connection → Connection
cancel_keep_alive_timeout c = record c { keep_alive_timer = false }

abbrev pub set_keep_alive_timeout : Connection → Connection
set_keep_alive_timeout c = record c { keep_alive_timer = true }

abbrev pub close : Connection → Connection
close c = record (cancel_keep_alive_timeout c) { socket_open = false }

-- The flags are the error codes.
unfoldable pub handle_handshake : Bool → Connection → Connection
handle_handshake failed c = if failed then c else read c

pub handle_write : Bool → Connection → Connection
handle_write failed c = if failed then close c else c

pub handle_keep_alive_timeout : Bool → Connection → Connection
handle_keep_alive_timeout cancelled c = if cancelled then c else record c { continue_read = false }
