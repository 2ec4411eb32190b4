-- ===== src/Http/Connection/KeepAlive/Steps.antt =====
-- A connection stays within the count it begins with, whatever happens to it.
use suda_gureum.Base.{
  ℕ, ◌≡◌, ◌<◌, refl, sym, Bool, true, false, inl, inr, Bool-cases, if◌then◌else◌, All, Bytes, ltb,
  length, arith,
}
use suda_gureum.Http.Connection.Reads.{
  Execution, Ran, returned, threw, After, stays, escapes, run, parse_result, after_parse,
  handle_read, after_run,
}
use suda_gureum.Http.Connection.{
  Environment, Connection, send_raw, send_response, send_bad_request_response, read, handle_write,
  new_connection, handle_keep_alive_timeout,
}
use suda_gureum.Http.Response.{plain_response, bad_request}
use suda_gureum.Socket.Given.{finish_write-given}
use suda_gureum.WebSocket.Json.{Json}
use suda_gureum.Http.Connection.KeepAlive.{
  HasNoUpgrade, Bounded, Step, reads, throws, writes, times_out, Reach, here, next,
}
use suda_gureum.Http.Connection.Reads.Cases.{
  after_parse-refused, after_parse-upgraded, after_parse-parsed, handle_read-off,
  handle_read-failed, parsing, handle_read-parse,
}
use suda_gureum.Http.Connection.KeepAlive.Budget.{
  Within, RanWithin, run-Within, send_response-given,
}
use mathlib.Core.Path.{subst}

-- What holds after a read, or what an exception leaves of it: the connection reads on within its
-- budget, or not any more.
abbrev Stays : ℕ → After → Type 0
Stays max (stays d) = Bounded max d
Stays max (escapes d) = Bounded max d
Stays max _ = ⊥

module _ (env : Environment) (json : Json) where
  send_bad_request_response-Bounded :
      (max : ℕ) (c : Connection) → Within max c → Bounded max (send_bad_request_response env c)
  unfolding send_bad_request_response send_response send_raw
  send_bad_request_response-Bounded max c v = record {
    size_t = v.size_t;
    no_web_socket = v.no_web_socket;
    budget = ground (
      arith,
      v.idle,
      v.budget,
      send_response-given (plain_response env.boost env.date bad_request) c,
    );
  }

  next_read-Bounded :
      (max : ℕ) (on : Bool) (c : Connection)
      → c.continue_read ≡ on
      → Within max c
      → Bounded max (if on then read c else c)
  next_read-Bounded max true c on v = record {
    size_t = v.size_t;
    no_web_socket = v.no_web_socket;
    budget = v.budget;
  }
  next_read-Bounded max false c off v = record {
    size_t = v.size_t;
    no_web_socket = v.no_web_socket;
    budget = ground (arith, v.idle, off, v.budget);
  }

  after_parse-Bounded :
      (max : ℕ) (r : Bool × ℕ) (input : Bytes) (c : Connection)
      → Within max c
      → Stays max (after_parse env json r input c)
  after_parse-Bounded max (false, at) input c v =
      subst (Stays max) (sym (after_parse-refused env json at input c))
        (send_bad_request_response-Bounded max c v)
  after_parse-Bounded max (true, at) input c v = elim (Bool-cases (ltb 0 at)) [
    | inl upgraded ↦
        subst (Stays max) (sym (after_parse-upgraded env json at input c upgraded v.no_web_socket))
          (send_bad_request_response-Bounded max c v)
    | inr parsed ↦
        subst (Stays max) (sym (after_parse-parsed env json at input c parsed))
          (next_read-Bounded max c.continue_read c refl v)
  ]

  after_run-Bounded :
      (max : ℕ) (input : Bytes) (ran : Ran)
      → RanWithin max ran
      → Stays max (after_run env json input ran)
  after_run-Bounded max input (threw c) v = record {
    size_t = v.size_t;
    no_web_socket = v.no_web_socket;
    budget = ground (arith, v.idle, v.budget);
  }
  after_run-Bounded max input (returned upgrade at c) v =
      after_parse-Bounded max (parse_result upgrade at (length input)) input c v

  parsing-Within :
      (max : ℕ) (c : Connection) → c.read_pending ≡ true → Bounded max c → Within max (parsing c)
  parsing-Within max c pending v = record {
    size_t = v.size_t;
    no_web_socket = v.no_web_socket;
    idle = refl;
    budget = ground (arith, pending, v.budget);
  }

  read_on-Bounded :
      (max : ℕ) (failed : Bool) (input : Bytes) (x : Execution) (c : Connection)
      → c.read_pending ≡ true
      → All HasNoUpgrade x.made
      → Bounded max c
      → c.continue_read ≡ true
      → Stays max (handle_read env json failed input x c)
  read_on-Bounded max true input x c pending plain v on =
      subst (Stays max) (sym (handle_read-failed env json input x c on)) (record {
        size_t = v.size_t;
        no_web_socket = v.no_web_socket;
        budget = ground (arith, pending, on, v.budget);
      })
  read_on-Bounded max false input x c pending plain v on =
      subst (Stays max) (sym (handle_read-parse env json input x c on)) (
        after_run-Bounded max input (run env x.made x.upgrade x.parsed (parsing c)) (
          run-Within env max x.made x.upgrade x.parsed (parsing c) plain on
            (parsing-Within max c pending v)))

  handle_read-Bounded :
      (max : ℕ) (failed : Bool) (input : Bytes) (x : Execution) (c : Connection)
      → c.read_pending ≡ true
      → All HasNoUpgrade x.made
      → Bounded max c
      → Stays max (handle_read env json failed input x c)
  handle_read-Bounded max failed input x c pending plain v = elim (Bool-cases c.continue_read) [
    | inr off ↦ subst (Stays max) (sym (handle_read-off env json failed input x c off)) (record {
      size_t = v.size_t;
      no_web_socket = v.no_web_socket;
      budget = ground (arith, pending, off, v.budget);
    })
    | inl on ↦ read_on-Bounded max failed input x c pending plain v on
  ]

  Step-Bounded : (max : ℕ) (c d : Connection) → Step env json c d → Bounded max c → Bounded max d
  unfolding handle_write handle_keep_alive_timeout
  Step-Bounded max c d (reads failed input x pending plain eq) v =
      subst (Stays max) eq (handle_read-Bounded max failed input x c pending plain v)
  Step-Bounded max c d (throws failed input x pending plain eq) v =
      subst (Stays max) eq (handle_read-Bounded max failed input x c pending plain v)
  Step-Bounded max c d (writes true busy) v = record {
    size_t = v.size_t;
    no_web_socket = v.no_web_socket;
    budget = ground (arith, v.budget, finish_write-given true c.writer);
  }
  Step-Bounded max c d (writes false busy) v = record {
    size_t = v.size_t;
    no_web_socket = v.no_web_socket;
    budget = ground (arith, v.budget, finish_write-given false c.writer);
  }
  Step-Bounded max c d (times_out true) v = v
  Step-Bounded max c d (times_out false) v = record {
    size_t = v.size_t;
    no_web_socket = v.no_web_socket;
    budget = ground (arith, v.budget);
  }

  -- A new connection on which the first read was started, with a count of max that is a size_t:
  -- whatever its client sends, as long as http-parser reports no upgrade, in whatever order reads,
  -- writes and the timer come, and whether exceptions leave a handler or not, it has been given at
  -- most two frames for each of max + 2 responses, and at most those of max + 1 while a read is
  -- pending.
  pub Reach-Bounded :
      (max : ℕ) (c : Connection)
      → max < 18446744073709551616
      → Reach env json (read (new_connection max)) c
      → Bounded max c
  Reach-Bounded max c h here = record { size_t = h; no_web_socket = refl; budget = omega arith }
  Reach-Bounded max c h (next {d} r s) = Step-Bounded max d c s (Reach-Bounded max d h r)
