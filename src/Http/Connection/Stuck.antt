-- ===== src/Http/Connection/Stuck.antt =====
-- What a resource processor does to the connection that leaves the body empty.
use mathlib.Core.Path.{subst}
use suda_gureum.Base.{sym, ℕ, ◌≡◌, Bool, true, false, [], ◌∷◌, ◌++◌, Bytes, is_empty, arith}
use suda_gureum.Http.Connection.Answers.{sent_for}
use suda_gureum.Http.Connection.Requests.{
  Answer, answered, raised, processed, answer_of, wants_keep_alive, has_timeout, plain_request,
}
use suda_gureum.Http.Connection.{Environment, Connection, send_raw, send_response}
use suda_gureum.Http.Parser.{Request}
use suda_gureum.Http.Response.Empty.{response_to-empty, response_to-filled}
use suda_gureum.Socket.Blocked.{IsStuck, Reach-IsStuck, sends-IsStuck}
use suda_gureum.Socket.Order.{System, Reach, start}
use suda_gureum.Socket.{finish_write}

module _ (env : Environment) where
  sent_for-empty :
      (keep_alive : Bool) (count : ℕ) (r : Request)
      → (processed env r).body ≡ []
      → (sent_for env keep_alive count r).1 ≡ []
  unfolding answer_of
  sent_for-empty true count r h = response_to-empty env.boost env.zlib env.date r _ h
  sent_for-empty false count r h = response_to-empty env.boost env.zlib env.date r _ h

  -- The connection behind an answer.
  abbrev pub connection_of : Answer → Connection
  connection_of (answered goes_on c) = c
  connection_of (raised c) = c

  plain_request-writer :
      (count : ℕ) (r : Request) (c : Connection)
      → has_timeout env env.keep_alive_timeout ≡ true
      → (connection_of (plain_request env count r c)).writer
        ≡ (send_response (sent_for env (wants_keep_alive env count r) count r) c).writer
  unfolding plain_request
  plain_request-writer count r c has = ground (arith, has)

  send_response-IsStuck :
      (head body : Bytes) (c : Connection)
      → is_empty head ≡ false
      → body ≡ []
      → c.writer.buffer_to_write ≡ []
      → c.writer.in_write ≡ false
      → IsStuck
          (c.writer.handed ++ head ∷ [])
          (start (finish_write false (send_response (head, body) c).writer))
  unfolding send_response send_raw
  send_response-IsStuck head body c filled none empty idle =
      rw none (sends-IsStuck head c.writer filled empty idle)

  -- Where the timeout for keep-alive can be read, a request on a connection with nothing to write,
  -- for a resource whose processor leaves the body empty: once the head of the answer is written,
  -- whatever is queued and written later, nothing more is ever handed to the socket of this
  -- connection, and the queue keeps the empty body in front.
  pub plain_request-IsStuck :
      (count : ℕ) (r : Request) (c : Connection) (s : System)
      → has_timeout env env.keep_alive_timeout ≡ true
      → (processed env r).body ≡ []
      → c.writer.buffer_to_write ≡ []
      → c.writer.in_write ≡ false
      → Reach (start (finish_write false (connection_of (plain_request env count r c)).writer)) s
      → IsStuck (c.writer.handed ++ (sent_for env (wants_keep_alive env count r) count r).0 ∷ []) s
  plain_request-IsStuck count r c s has empty none idle reach =
      let sent = sent_for env (wants_keep_alive env count r) count r in
      let head : Bytes = sent.0 in
      Reach-IsStuck
        (subst (λ w. IsStuck (c.writer.handed ++ head ∷ []) (start (finish_write false w)))
          (sym (plain_request-writer count r c has))
          (send_response-IsStuck sent.0 sent.1 c
            (response_to-filled env.boost env.zlib env.date r
              (answer_of env (wants_keep_alive env count r) count r))
            (sent_for-empty (wants_keep_alive env count r) count r empty) none idle))
        reach
