-- ===== src/Socket/Layers.antt =====
-- The classes of Socket.h and Socket.cpp over a stream of asio: `TcpSocket`, `TcpSslSocket`, and what
-- `BufferedWriterSocket` forwards to either. The stream keeps the operations that were started and are
-- not completed; asio completes them in any order, with an error code or none. Handlers are numbered; the
-- operations whose handlers were called are kept in order, with the error codes.
pub mod Once
pub mod Secured
pub mod Tests
use suda_gureum.Base.{ℕ, Bool, true, false, List, [], ◌∷◌, ◌++◌, Option, none, some, Bytes}
use suda_gureum.Socket.{BufferedWriter}

pub data Operation : Type 0 where
  handshake_as_server handshake_as_client connect connect_ssl : ℕ → Operation
  read_some : ℕ → ℕ → Operation
  write : Bytes → ℕ → Operation

-- The `socket_` of a `TcpSocket`, or the `stream_` of a `TcpSslSocket`.
pub record Stream : Type 0 where
  pub pending : List Operation
  pub called : List (Operation × Option ℕ)
  -- the layer of SSL was shut down, the socket was shut down in both directions, and it was closed
  pub ssl_shut : Bool
  pub shut : Bool
  pub closed : Bool

abbrev pub new_stream : Stream
new_stream = record { pending = []; called = []; ssl_shut = false; shut = false; closed = false }

abbrev pub start : Operation → Stream → Stream
start operation s = record s { pending = s.pending ++ operation ∷ [] }

-- The call of the handler of an operation.
abbrev pub call : Operation → Option ℕ → Stream → Stream
call operation ec s = record s { called = s.called ++ (operation, ec) ∷ [] }

-- `SocketBase`, without the end points and the buffer for a read, of which the size is left. `none` is an
-- exception.
pub record SocketBase (S : Type 0) : Type 0 where
  pub async_handshake_as_server : ℕ → S → Option S
  pub async_read_some : ℕ → ℕ → S → S
  pub async_write : Bytes → ℕ → S → S
  pub async_connect : ℕ → S → S
  pub close : S → S

-- `TcpSocket`, which throws `logic_error` where it is asked for a handshake.
abbrev pub tcp_socket : SocketBase Stream
tcp_socket = record {
  async_handshake_as_server = λ handler s. none;
  async_read_some = λ size handler s. start (read_some size handler) s;
  async_write = λ bytes handler s. start (write bytes handler) s;
  async_connect = λ handler s. start (connect handler) s;
  close = λ s. record s { shut = true; closed = true };
}

-- `TcpSslSocket`
abbrev pub tcp_ssl_socket : SocketBase Stream
tcp_ssl_socket = record {
  async_handshake_as_server = λ handler s. some (start (handshake_as_server handler) s);
  async_read_some = λ size handler s. start (read_some size handler) s;
  async_write = λ bytes handler s. start (write bytes handler) s;
  async_connect = λ handler s. start (connect_ssl handler) s;
  close = λ s. record s { ssl_shut = true; shut = true; closed = true };
}

abbrev pub forward : {S : Type 0} → BufferedWriter → Option S → Option (S × BufferedWriter)
forward w none = none
forward w (some s) = some (s, w)

-- `BufferedWriterSocket`; the writing of frames with its queue is the module `Socket`.
abbrev pub buffered : {S : Type 0} → SocketBase S → SocketBase (S × BufferedWriter)
buffered base = record {
  async_handshake_as_server = λ handler s. forward s.1 (base.async_handshake_as_server handler s.0);
  async_read_some = λ size handler s. (base.async_read_some size handler s.0, s.1);
  async_write = λ bytes handler s. (base.async_write bytes handler s.0, s.1);
  async_connect = λ handler s. (base.async_connect handler s.0, s.1);
  close = λ s. (base.close s.0, s.1);
}

-- The completion of an operation. That of a connection for SSL goes on with the handshake as client,
-- unless it failed.
pub complete : Operation → Option ℕ → Stream → Stream
complete (connect_ssl handler) none s = start (handshake_as_client handler) s
complete operation ec s = call operation ec s
