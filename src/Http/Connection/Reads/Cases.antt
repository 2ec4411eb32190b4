-- ===== src/Http/Connection/Reads/Cases.antt =====
-- The branches of `handleRead`, one at a time.
use suda_gureum.Base.{ℕ, ◌≡◌, Bool, true, false, ltb, drop, refl, if◌then◌else◌, Bytes, arith}
use suda_gureum.Http.Connection.Reads.{
  Execution, After, stays, upgrades, escapes, run, after_parse, after_run, handle_read,
}
use suda_gureum.Http.Connection.{
  Environment, Connection, send_bad_request_response, read, cancel_keep_alive_timeout, close,
}
use suda_gureum.WebSocket.Connection.{taken_over}
use suda_gureum.WebSocket.Connection
use suda_gureum.WebSocket.Json.{Json}

-- The connection when `parse` begins.
abbrev pub parsing : Connection → Connection
parsing c = cancel_keep_alive_timeout (record c { read_pending = false })

abbrev pub HasEscaped : After → Type 0
HasEscaped (escapes c) = Unit
HasEscaped (stays c) = ⊥
HasEscaped (upgrades c w) = ⊥

module _ (env : Environment) (json : Json) where
  pub after_parse-HasEscaped :
      (r : Bool × ℕ) (input : Bytes) (c : Connection)
      → HasEscaped (after_parse env json r input c)
      → ⊥
  unfolding after_parse
  after_parse-HasEscaped (false, at) input c h = h
  after_parse-HasEscaped (true, at) input c h = ground (arith, h)

  pub after_parse-refused :
      (at : ℕ) (input : Bytes) (c : Connection)
      → after_parse env json (false, at) input c ≡ stays (send_bad_request_response env c)
  unfolding after_parse
  after_parse-refused at input c = refl

  pub after_parse-web_socket :
      (at : ℕ) (input : Bytes) (c : Connection)
      → ltb 0 at ≡ true
      → c.upgrade_web_socket ≡ true
      → after_parse env json (true, at) input c
        ≡ upgrades
            (record c { has_socket = false })
            (Connection.handle_read json false (drop at input) taken_over)
  unfolding after_parse
  after_parse-web_socket at input c upgraded wanted = ground (arith, upgraded, wanted)

  pub after_parse-upgraded :
      (at : ℕ) (input : Bytes) (c : Connection)
      → ltb 0 at ≡ true
      → c.upgrade_web_socket ≡ false
      → after_parse env json (true, at) input c ≡ stays (send_bad_request_response env c)
  unfolding after_parse
  after_parse-upgraded at input c upgraded none_wanted = ground (arith, upgraded, none_wanted)

  pub after_parse-parsed :
      (at : ℕ) (input : Bytes) (c : Connection)
      → ltb 0 at ≡ false
      → after_parse env json (true, at) input c ≡ stays (if c.continue_read then read c else c)
  unfolding after_parse
  after_parse-parsed at input c parsed = ground (arith, parsed)

  pub handle_read-off :
      (failed : Bool) (input : Bytes) (x : Execution) (c : Connection)
      → c.continue_read ≡ false
      → handle_read env json failed input x c ≡ stays (record c { read_pending = false })
  unfolding handle_read
  handle_read-off failed input x c off = ground (arith, off)

  pub handle_read-failed :
      (input : Bytes) (x : Execution) (c : Connection)
      → c.continue_read ≡ true
      → handle_read env json true input x c
        ≡ stays (close (cancel_keep_alive_timeout (record c { read_pending = false })))
  unfolding handle_read
  handle_read-failed input x c on = ground (arith, on)

  pub handle_read-parse :
      (input : Bytes) (x : Execution) (c : Connection)
      → c.continue_read ≡ true
      → handle_read env json false input x c
        ≡ after_run env json input (run env x.made x.upgrade x.parsed (parsing c))
  unfolding handle_read
  handle_read-parse input x c on = ground (arith, on)
