-- ===== src/Http/Connection/Upgrade/Switch.antt =====
-- A read that ends with a request for WebSocket.
use suda_gureum.Base.{
  ℕ, ◌≡◌, refl, ap, ◌∙◌, true, false, List, [], ◌∷◌, ◌++◌, append-nil, drop, some, ltb, Bytes,
  codes, length, arith,
}
use suda_gureum.Base.Boost.{is_infix}
use suda_gureum.Http.Connection.Answers.{async_write-buffer_to_write}
use suda_gureum.Http.Connection.Reads.{
  Execution, returned, upgrades, after_message, parse_result, after_parse, after_run, handle_read,
}
use suda_gureum.Http.Connection.Requests.{
  answered, header_at, wants_web_socket, web_socket_request, accept_upgrade, switching_protocols,
  accept_of, proc_http_request,
}
use suda_gureum.Http.Connection.{Environment, Connection, send_raw, count_down}
use suda_gureum.Http.Parser.{Callback, Info, Request}
use suda_gureum.Socket.{emplace_back}
use suda_gureum.Utility.Base64.{encode_base64}
use suda_gureum.Http.Response.{end_line}
use suda_gureum.WebSocket.Connection.{taken_over}
use suda_gureum.WebSocket.Connection
use suda_gureum.Http.Connection.Reads.Cases.{after_parse-web_socket}
use suda_gureum.WebSocket.Json.{Json}
use suda_gureum.Http.Connection.Upgrade.{reset, counting, ReadsOne, handle_read-one_message}

-- The answer 101 to a request with the date and the text for `Sec-WebSocket-Accept`, as it is on the
-- wire.
abbrev pub upgrade_response : Bytes → Bytes → Bytes
upgrade_response date accept =
    codes "HTTP/1.1 101 Switching Protocols\r\nConnection: Upgrade\r\nUpgrade: websocket\r\nDate: "
    ++ (date
        ++ (codes "\r\nSec-WebSocket-Accept: "
            ++ (accept ++ codes "\r\nSec-WebSocket-Version: 13\r\n\r\n")))

-- RFC 6455: the hash of the key with the GUID behind it. The characters for its 20 bytes are 27, and
-- the padding sign that Base64 has behind them is missing.
abbrev pub hash_of : Environment → Bytes → Bytes
hash_of env key = env.hash_sha1 (key ++ codes "258EAFA5-E914-47DA-95CA-C5AB0DC85B11")

module _ (env : Environment) (json : Json) where
  accept_of-characters :
      (key : Bytes)
      → length (hash_of env key) ≡ 20
      → accept_of env key ≡ env.to_base64.characters (hash_of env key)
  unfolding encode_base64
  accept_of-characters key sha1 = ground (
    arith,
    sha1,
    env.to_base64.characters_lem (hash_of env key),
    append-nil (env.to_base64.characters (hash_of env key)),
  )

  switching_protocols-wire :
      (accept : Bytes) → switching_protocols env accept ≡ upgrade_response env.date accept
  unfolding end_line
  switching_protocols-wire accept = refl

  -- A request for WebSocket that has what the code looks at, and its key.
  pub record AsksWebSocket (r : Request) (key : Bytes) : Type 0 where
    pub upgrade : r.upgrade ≡ true
    pub http11 : r.http11 ≡ true
    pub protocol : Bytes
    pub has_protocol : header_at env (codes "Upgrade") r ≡ some protocol
    pub is_web_socket : env.boost.iequals protocol (codes "websocket") ≡ true
    pub version : Bytes
    pub has_version : header_at env (codes "Sec-WebSocket-Version") r ≡ some version
    pub is_thirteen : is_infix (codes "13") version ≡ true
    pub has_key : header_at env (codes "Sec-WebSocket-Key") r ≡ some key

  -- The connection after the answer to such a request.
  abbrev pub switched : Bytes → Connection → Connection
  switched key c = record (send_raw (switching_protocols env (accept_of env key)) c) {
    upgrade_web_socket = true;
  }

  proc_http_request-AsksWebSocket :
      (r : Request) (key : Bytes) (c : Connection)
      → AsksWebSocket r key
      → proc_http_request env r c
        ≡ answered true
            (switched key (record c { keep_alive_count = count_down c.keep_alive_count }))
  unfolding proc_http_request wants_web_socket web_socket_request accept_upgrade
  proc_http_request-AsksWebSocket r key c v = ground (
    arith, v.upgrade, v.http11, v.has_protocol, v.is_web_socket, v.has_version, v.is_thirteen,
    v.has_key,
  )

  -- A read with one message that can be read, on a connection that reads on, and that asks for
  -- WebSocket over HTTP/1.1 with a key and a version with 13 in it, where http-parser stops for the
  -- upgrade behind at least one byte and SHA-1 gives 20 bytes: queued behind what was queued before
  -- is the answer 101, byte for byte, with the characters in Base64 of the hash of the key and the
  -- GUID of the protocol; these are 27, without the sign of padding that the protocol has. The
  -- connection is left without its socket, and the WebSocket connection takes over and handles at
  -- once the bytes behind the message, all of them and nothing else.
  pub handle_read-AsksWebSocket :
      (input : Bytes) (x : Execution) (cbs : List Callback) (info : Info) (at : ℕ) (r : Request)
      (key : Bytes) (c : Connection)
      → ReadsOne env json x cbs info at r c
      → AsksWebSocket r key
      → x.upgrade ≡ true
      → ltb 0 x.parsed ≡ true
      → length (hash_of env key) ≡ 20
      → (d : Connection) × (handle_read env json false input x c
          ≡ upgrades d (Connection.handle_read json false (drop x.parsed input) taken_over))
        × (d.writer.buffer_to_write
            ≡ c.writer.buffer_to_write
              ++ (upgrade_response env.date (env.to_base64.characters (hash_of env key)), 0) ∷ [])
        × (d.has_socket ≡ false)
        × (length (env.to_base64.characters (hash_of env key)) ≡ 27)
  unfolding send_raw emplace_back
  handle_read-AsksWebSocket input x cbs info at r key c v asks upgrade parsed sha1 = (
    record (switched key (counting env cbs c)) { has_socket = false },
    handle_read-one_message env json input x cbs info at r c v
        ∙ ap
            (λ a.
              after_run env json input (after_message env (returned x.upgrade x.parsed) info at a))
            (proc_http_request-AsksWebSocket r key (reset env cbs c) asks)
        ∙ ap
            (λ b.
              after_parse env json (parse_result b x.parsed (length input)) input
                (switched key (counting env cbs c)))
            upgrade
        ∙ after_parse-web_socket env json x.parsed input (switched key (counting env cbs c)) parsed
            refl,
    async_write-buffer_to_write
          (emplace_back (switching_protocols env (accept_of env key)) 0 c.writer)
        ∙ ap (λ s. c.writer.buffer_to_write ++ (s, 0) ∷ [])
            (switching_protocols-wire (accept_of env key)
              ∙ ap (upgrade_response env.date) (accept_of-characters key sha1)),
    refl,
    ground (arith, sha1, env.to_base64.characters_lem (hash_of env key)),
  )
