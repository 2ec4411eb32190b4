-- ===== src/Http/Server.antt =====
-- `HttpServer` (HttpServer.h, HttpServer.cpp): the acceptor, the connections that it made, and what asio
-- may complete on them. A connection that the upgrade replaces goes on as a WebSocket connection.
pub mod Serving
pub mod Setup
pub mod Attack
pub mod Tests
use suda_gureum.Base.{
  ℕ, ◌≡◌, Bool, true, false, not, ◌&&◌, ◌||◌, List, [], ◌∷◌, ◌++◌, Option, none, some,
  if◌then◌else◌, All, Bytes, codes,
}
use suda_gureum.Http.Connection.Reads.{Execution, After, stays, upgrades, escapes, handle_read}
use suda_gureum.Http.Connection.{
  Environment, Connection, new_connection, read, handle_handshake, handle_write,
  handle_keep_alive_timeout,
}
use suda_gureum.Socket.{finish_write}
use suda_gureum.Base.Result.{Exception, std_exception}
use suda_gureum.Threads.{Handled, finished, threw}
use suda_gureum.WebSocket.Connection.Closing.{Step}
use suda_gureum.WebSocket.Connection.{Connection as WebSocketConnection, Running, running}
use suda_gureum.WebSocket.Json.{Json}

-- An HTTP connection: its socket is a `TcpSslSocket` or a `TcpSocket`, the handshake of the former is
-- pending, and it is done.
pub record Accepted : Type 0 where
  pub ssl : Bool
  pub handshaking : Bool
  pub secured : Bool
  pub conn : Connection

pub record Server : Type 0 where
  pub ssl : Bool
  -- `http_server_keep_alive_max_count`
  pub keep_alive_max_count : ℕ
  pub next_conn : Option Accepted
  pub accept_pending : Bool
  pub accepted : List Accepted
  pub web_sockets : List Running
  -- a null pointer was used, which ends the process
  pub crashed : Bool

-- The constructor of `HttpConnection`.
abbrev pub made : Bool → ℕ → Accepted
made ssl keep_alive_max_count = record {
  ssl = ssl;
  handshaking = false;
  secured = false;
  conn = new_connection keep_alive_max_count;
}

pub accept_next : Server → Server
accept_next s = record s {
  next_conn = some (made false s.keep_alive_max_count);
  accept_pending = true;
}

pub accept_next_ssl : Server → Server
accept_next_ssl s = record s {
  next_conn = some (made true s.keep_alive_max_count);
  accept_pending = true;
}

-- `asyncHandshakeAsServer`: a `TcpSocket` throws `logic_error`.
pub start_ssl : Accepted → Option Accepted
start_ssl a = if a.ssl then some (record a { handshaking = true }) else none

abbrev pub start_read : Accepted → Accepted
start_read a = record a { conn = read a.conn }

abbrev pub accepting : Accepted → Server → Server
accepting a s = record s { accepted = s.accepted ++ a ∷ [] }

-- The flags are the error codes. `nextConn_` was set before any accept was started.
abbrev pub read_next : Option Accepted → Server → Server
read_next none s = s
read_next (some a) s = accepting (start_read a) s

pub handle_accept : Bool → Server → Handled Server
unfolding accept_next
handle_accept failed s = finished (accept_next (if failed then s else read_next s.next_conn s))

abbrev pub shaken : Option Accepted → Server → Handled Server
shaken none s =
    threw (std_exception (codes "asyncHandshakeAsServer is not implemented in TcpSocket")) s
shaken (some a) s = finished (accept_next_ssl (accepting a s))

abbrev pub started : Option Accepted → Server → Handled Server
started none s = finished (accept_next_ssl s)
started (some a) s = shaken (start_ssl a) s

pub handle_accept_ssl : Bool → Server → Handled Server
unfolding accept_next_ssl start_ssl
handle_accept_ssl failed s = if failed then finished (accept_next_ssl s) else started s.next_conn s

abbrev pub handle_accepted : Bool → Server → Handled Server
handle_accepted failed s = if s.ssl then handle_accept_ssl failed s else handle_accept failed s

-- What leaves a handler: `out_of_range` of `at`, or `bad_lexical_cast` of `getAs`; a thread that it
-- ends takes either for a `std::exception`. The text is one of those that libraries give it.
abbrev pub out_of_range : Exception
out_of_range = std_exception (codes "map::at")

-- What a read leaves of the server whose connection it was.
abbrev pub after_read : Server → List Accepted → Accepted → List Accepted → After → Handled Server
after_read s before a behind (stays d) =
    finished (record s { accepted = before ++ record a { conn = d } ∷ behind })
after_read s before a behind (upgrades d web_socket) = finished (record s {
  accepted = before ++ record a { conn = d } ∷ behind;
  web_sockets = s.web_sockets ++ web_socket ∷ [];
})
after_read s before a behind (escapes d) =
    threw out_of_range (record s { accepted = before ++ record a { conn = d } ∷ behind })

-- The end of a handshake as server.
abbrev pub shook : Bool → Accepted → Accepted
shook failed a = record a {
  handshaking = false;
  secured = not failed;
  conn = handle_handshake failed a.conn;
}

abbrev pub wrote : Bool → Accepted → Accepted
wrote failed a = record a {
  conn = handle_write failed (record a.conn { writer = finish_write failed a.conn.writer });
}

-- A failed write closes the socket, whether or not it was moved away.
abbrev pub closes_null : Bool → Accepted → Bool
closes_null failed a = failed && not a.conn.has_socket

abbrev pub timed_out : Bool → Accepted → Accepted
timed_out cancelled a = record a { conn = handle_keep_alive_timeout cancelled a.conn }

-- A completion, and what its handler does: of the accept, or of an operation on one of the
-- connections.
pub data Event (env : Environment) (json : Json) (s : Server) : Handled Server → Type 0 where
  accepts :
      (failed : Bool)
      → s.accept_pending ≡ true
      → Event env json s (handle_accepted failed (record s { accept_pending = false }))
  shakes :
      (failed : Bool) (before : List Accepted) (a : Accepted) (behind : List Accepted)
      → s.accepted ≡ before ++ a ∷ behind
      → a.handshaking ≡ true
      → Event env json s (finished (record s { accepted = before ++ shook failed a ∷ behind }))
  reads :
      (failed : Bool) (input : Bytes) (x : Execution) (before : List Accepted) (a : Accepted)
      (behind : List Accepted)
      → s.accepted ≡ before ++ a ∷ behind
      → a.conn.read_pending ≡ true
      → Event env json s (after_read s before a behind (handle_read env json failed input x a.conn))
  writes :
      (failed : Bool) (before : List Accepted) (a : Accepted) (behind : List Accepted)
      → s.accepted ≡ before ++ a ∷ behind
      → a.conn.writer.in_write ≡ true
      → Event env json s (
          finished (record s {
            accepted = before ++ wrote failed a ∷ behind;
            crashed = s.crashed || closes_null failed a;
          }))
  times_out :
      (cancelled : Bool) (before : List Accepted) (a : Accepted) (behind : List Accepted)
      → s.accepted ≡ before ++ a ∷ behind
      → a.conn.keep_alive_timer ≡ true
      → Event env json s
          (finished (record s { accepted = before ++ timed_out cancelled a ∷ behind }))
  goes_on :
      (before : List Running) (c d : WebSocketConnection) (behind : List Running)
      → s.web_sockets ≡ before ++ running c ∷ behind
      → Step json c d
      → Event env json s (finished (record s { web_sockets = before ++ running d ∷ behind }))

abbrev pub IsQuiet : Accepted → Type 0
IsQuiet a =
    (a.handshaking ≡ false)
    × (a.conn.read_pending ≡ false)
    × (a.conn.writer.in_write ≡ false)
    × (a.conn.keep_alive_timer ≡ false)

-- Nothing is pending, and no WebSocket connection is there.
pub record IsIdle (s : Server) : Type 0 where
  pub accept : s.accept_pending ≡ false
  pub connections : All IsQuiet s.accepted
  pub web_sockets : s.web_sockets ≡ []

-- The end of the constructor: the acceptor listens.
pub listening : Bool → ℕ → Server
listening ssl keep_alive_max_count =
    let s : Server = record {
      ssl = ssl;
      keep_alive_max_count = keep_alive_max_count;
      next_conn = none;
      accept_pending = false;
      accepted = [];
      web_sockets = [];
      crashed = false;
    } in
    if ssl then accept_next_ssl s else accept_next s
