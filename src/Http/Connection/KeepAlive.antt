-- ===== src/Http/Connection/KeepAlive.antt =====
-- The steps of a connection that answers plain requests, and the bound on the frames it sends.
pub mod Budget
pub mod Steps
use suda_gureum.Base.{
  ℕ, ◌+◌, ◌*◌, ◌≡◌, ◌≤◌, ◌<◌, refl, sym, ap, ◌∙◌, Bool, true, false, ◌&&◌, inl, inr, Bool-cases,
  Option-cases, List, [], ◌∷◌, ◌++◌, Option, none, some, if◌then◌else◌, All, Bytes, length,
  length-append, arith,
}
use suda_gureum.Http.Connection.Reads.{
  Call, calls, completes, Execution, Ran, returned, threw, After, stays, escapes, run,
  message_complete, parse_result, after_parse, handle_read,
}
use suda_gureum.Http.Connection.Requests.{
  Answer, answered, raised, wants_web_socket, answer_of, wants_keep_alive, plain_request,
  proc_http_request,
}
use suda_gureum.Http.Connection.{
  Environment, Connection, count_down, send_raw, send_response, handle_keep_alive_timeout,
}
use suda_gureum.Http.Connection
use suda_gureum.Http.Parser.{Parser, Info, Request, no_request, callback, request_of}
use suda_gureum.Http.Response.{response_to}
use suda_gureum.Http.Connection.Answers.{send_response-buffer_to_write}
use suda_gureum.Http.Parser.Flags.{request_of-upgrade}
use suda_gureum.Socket.Given.{given}
use suda_gureum.Socket.{
  Entry, BufferedWriter, emplace_back, write_front, async_write, handle_write, handle_front,
  finish_write,
}
use suda_gureum.WebSocket.Json.{Json}

-- http-parser reports no upgrade.
abbrev pub HasNoUpgrade : Call → Type 0
HasNoUpgrade (calls cb) = Unit
HasNoUpgrade (completes info at) = info.upgrade ≡ false

-- While the connection reads: the frames of a connection that may answer `max` requests, less two for
-- each that it may still answer.
abbrev pub InBudget : ℕ → Connection → Type 0
InBudget max c =
    if c.continue_read
    then given c.writer + 2 * c.keep_alive_count ≤ 2 * max
    else given c.writer ≤ 2 * max + 2

pub record Bounded (max : ℕ) (c : Connection) : Type 0 where
  pub size_t : c.keep_alive_count < 18446744073709551616
  pub no_web_socket : c.upgrade_web_socket ≡ false
  pub budget : if c.read_pending then InBudget max c else given c.writer ≤ 2 * max + 4

-- A step of the connection: a read that http-parser goes through without an upgrade, whether it
-- returns or throws, a write completed, and the end of the timer.
pub data Step (env : Environment) (json : Json) (c : Connection) : Connection → Type 0 where
  reads :
      (failed : Bool) (input : Bytes) (x : Execution) {d : Connection}
      → c.read_pending ≡ true
      → All HasNoUpgrade x.made
      → handle_read env json failed input x c ≡ stays d
      → Step env json c d
  throws :
      (failed : Bool) (input : Bytes) (x : Execution) {d : Connection}
      → c.read_pending ≡ true
      → All HasNoUpgrade x.made
      → handle_read env json failed input x c ≡ escapes d
      → Step env json c d
  writes :
      (failed : Bool)
      → c.writer.in_write ≡ true
      → Step env json c
          (Connection.handle_write failed (record c { writer = finish_write failed c.writer }))
  times_out : (cancelled : Bool) → Step env json c (handle_keep_alive_timeout cancelled c)

pub data Reach (env : Environment) (json : Json) (c : Connection) : Connection → Type 0 where
  here : Reach env json c c
  next : {d e : Connection} → Reach env json c d → Step env json d e → Reach env json c e
