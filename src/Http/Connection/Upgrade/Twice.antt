-- ===== src/Http/Connection/Upgrade/Twice.antt =====
-- A read that ends with a request for an upgrade to something else.
use suda_gureum.Base.{
  sym, ℕ, ◌≡◌, refl, ap, ◌∙◌, true, false, List, [], ◌∷◌, ◌++◌, append_assoc, ltb, Bytes, length,
  arith,
}
use suda_gureum.Http.Connection.Answers.{
  send_response-buffer_to_write, IsPlain, answers, sent_for, kept, plain_request-kept,
}
use suda_gureum.Http.Connection.Reads.{
  Execution, returned, stays, after_message, parse_result, after_parse, after_run, handle_read,
}
use suda_gureum.Http.Connection.Requests.{wants_keep_alive, has_timeout, proc_http_request}
use suda_gureum.Http.Connection.{
  Environment, Connection, send_raw, send_bad_request_response, count_down,
}
use suda_gureum.Http.Parser.{Callback, Info, Request}
use suda_gureum.Http.Connection.Reads.Cases.{after_parse-upgraded}
use suda_gureum.WebSocket.Json.{Json}
use suda_gureum.Http.Connection.Upgrade.{reset, counting, ReadsOne, handle_read-one_message}
use suda_gureum.Http.Connection.Requests.{plain_request}
use suda_gureum.Http.Connection.{send_response, send_raw, count_down}
use suda_gureum.Http.Response.{plain_response, bad_request}
use suda_gureum.Base.{append_assoc, sym, List, []}
use suda_gureum.Socket.{Entry}

module _ (env : Environment) where
  -- The head and the body of the refusal.
  abbrev pub bad_entries : List Entry
  bad_entries =
      ((plain_response env.boost env.date bad_request).0, 0)
      ∷ ((plain_response env.boost env.date bad_request).1, 0)
      ∷ []

  proc_http_request-IsPlain :
      (r : Request) (c : Connection)
      → IsPlain env r
      → proc_http_request env r c
        ≡ plain_request env c.keep_alive_count r
            (record c { keep_alive_count = count_down c.keep_alive_count })
  unfolding proc_http_request
  proc_http_request-IsPlain r c plain = ground (arith, plain)

  answers-one :
      (count : ℕ) (r : Request)
      → wants_keep_alive env count r ≡ true
      → answers env count (r ∷ [])
        ≡ ((sent_for env true count r).0, 0) ∷ ((sent_for env true count r).1, 0) ∷ []
  unfolding answers
  answers-one count r k = ground (arith, k)

  send_bad_request_response-buffer_to_write :
      (c : Connection)
      → (send_bad_request_response env c).writer.buffer_to_write
        ≡ c.writer.buffer_to_write ++ bad_entries
  unfolding send_bad_request_response
  send_bad_request_response-buffer_to_write c =
      send_response-buffer_to_write (plain_response env.boost env.date bad_request) c

  twice-buffer_to_write :
      (count : ℕ) (r : Request) (c : Connection)
      → wants_keep_alive env count r ≡ true
      → (send_bad_request_response env (kept env count r c)).writer.buffer_to_write
        ≡ c.writer.buffer_to_write ++ (answers env count (r ∷ []) ++ bad_entries)
  twice-buffer_to_write count r c k =
      send_bad_request_response-buffer_to_write (kept env count r c)
      ∙ ap (λ es. es ++ bad_entries) (send_response-buffer_to_write (sent_for env true count r) c)
      ∙ append_assoc c.writer.buffer_to_write _ bad_entries
      ∙ ap (λ es. c.writer.buffer_to_write ++ (es ++ bad_entries)) (sym (answers-one count r k))

module _ (env : Environment) (json : Json) where
  -- A read with one message that can be read and does not ask for WebSocket, on a connection that
  -- reads on, was not upgraded and keeps this request alive, where http-parser stops for an upgrade
  -- behind at least one byte: the request is answered as any other, and behind that answer it is
  -- refused as a bad request; no read follows.
  pub handle_read-answers_twice :
      (input : Bytes) (x : Execution) (cbs : List Callback) (info : Info) (at : ℕ) (r : Request)
      (c : Connection)
      → ReadsOne env json x cbs info at r c
      → IsPlain env r
      → has_timeout env env.keep_alive_timeout ≡ true
      → wants_keep_alive env c.keep_alive_count r ≡ true
      → c.upgrade_web_socket ≡ false
      → x.upgrade ≡ true
      → ltb 0 x.parsed ≡ true
      → (d : Connection) × (handle_read env json false input x c ≡ stays d)
        × (d.writer.buffer_to_write
            ≡ c.writer.buffer_to_write
              ++ (answers env c.keep_alive_count (r ∷ []) ++ bad_entries env))
        × (d.read_pending ≡ false)
  unfolding send_response send_raw send_bad_request_response
  handle_read-answers_twice input x cbs info at r c v plain has k idle upgrade parsed = (
    send_bad_request_response env (kept env c.keep_alive_count r (counting env cbs c)),
    handle_read-one_message env json input x cbs info at r c v
        ∙ ap
            (λ a.
              after_run env json input (after_message env (returned x.upgrade x.parsed) info at a))
            (proc_http_request-IsPlain env r (reset env cbs c) plain
              ∙ plain_request-kept env c.keep_alive_count r (counting env cbs c) has k)
        ∙ ap
            (λ b.
              after_parse env json (parse_result b x.parsed (length input)) input
                (kept env c.keep_alive_count r (counting env cbs c)))
            upgrade
        ∙ after_parse-upgraded env json x.parsed input
            (kept env c.keep_alive_count r (counting env cbs c)) parsed idle,
    twice-buffer_to_write env c.keep_alive_count r (counting env cbs c) k,
    refl,
  )
