-- ===== src/Http/Connection/Requests.antt =====
-- `HttpConnection::procHttpRequest` (HttpServer.cpp): what a request does to the connection.
use suda_gureum.Base.{
  ℕ, Bool, true, false, ◌&&◌, [], ◌∷◌, ◌++◌, Option, none, some, ltb, if◌then◌else◌, Bytes, codes,
}
use suda_gureum.Base.AssocMap.{find, emplace}
use suda_gureum.Base.Boost.{fold_case, is_infix}
use suda_gureum.Base.Decimal.{decimal}
use suda_gureum.Http.Connection.{
  Environment, Connection, count_down, send_raw, send_response, set_keep_alive_timeout,
}
use suda_gureum.Http.Parser.{Request}
use suda_gureum.Http.Response.{Response, no_response, crlf, end_line, response_to}
use suda_gureum.Http.Processors.{get_resource_processor}
use suda_gureum.Utility.Base64.{encode_base64}

-- The value returned, or an exception that leaves the function.
pub data Answer : Type 0 where
  answered : Bool → Connection → Answer
  raised : Connection → Answer

-- `WebSocketKeyConcatMagic`
abbrev pub key_concat_magic : Bytes
key_concat_magic = codes "258EAFA5-E914-47DA-95CA-C5AB0DC85B11"

module _ (env : Environment) where
  -- `request.headers_.at`; with no such header it throws `out_of_range`.
  abbrev pub header_at : Bytes → Request → Option Bytes
  header_at name request = find (fold_case env.boost) name request.headers

  -- The condition of the branch for WebSocket; `none` is an exception.
  unfoldable pub wants_web_socket : Request → Option Bool
  wants_web_socket request =
      if request.upgrade
      then elim (header_at (codes "Upgrade") request) [
        | none ↦ none
        | some protocol ↦ some (env.boost.iequals protocol (codes "websocket"))
      ]
      else some false

  abbrev pub switching_protocols : Bytes → Bytes
  switching_protocols accept = end_line (codes "HTTP/1.1 101 Switching Protocols") (
      end_line (codes "Connection: Upgrade") (
        end_line (codes "Upgrade: websocket") (
          end_line (codes "Date: " ++ env.date) (
            end_line (codes "Sec-WebSocket-Accept: " ++ accept)
              (end_line (codes "Sec-WebSocket-Version: 13") crlf)))))

  abbrev pub accept_of : Bytes → Bytes
  accept_of key = encode_base64 env.to_base64 (env.hash_sha1 (key ++ key_concat_magic))

  unfoldable pub accept_upgrade : Request → Connection → Answer
  accept_upgrade request c = elim (header_at (codes "Sec-WebSocket-Key") request) [
    | none ↦ raised c
    | some key ↦
        answered true
          (record (send_raw (switching_protocols (accept_of key)) c) { upgrade_web_socket = true })
  ]

  unfoldable pub web_socket_request : Request → Connection → Answer
  unfolding accept_upgrade
  web_socket_request request c =
      if request.http11
      then elim (header_at (codes "Sec-WebSocket-Version") request) [
        | none ↦ raised c
        | some version ↦
            if is_infix (codes "13") version then accept_upgrade request c else answered true c
      ]
      else answered false c

  abbrev pub not_found : Response
  not_found = record {
    status = 404;
    headers = (codes "Content-Type", codes "text/plain; charset=UTF-8") ∷ [];
    body = codes "Not found";
  }

  abbrev pub caught : Option Response → Response
  caught none = not_found
  caught (some response) = response

  unfoldable pub processed : Request → Response
  processed request = elim (get_resource_processor request.target env.processors) [
    | none ↦ not_found
    | some processor ↦ caught (processor request (record no_response { status = 200 }))
  ]

  abbrev pub timeout_text : Option Bytes → Bytes
  timeout_text none = []
  timeout_text (some seconds) = seconds

  abbrev pub keep_alive_value : ℕ → Bytes
  keep_alive_value count =
      codes "timeout=" ++ (timeout_text env.keep_alive_timeout ++ (codes ", max=" ++ decimal count))

  -- `insert` keeps a header that is there.
  abbrev pub keep_alive_headers : ℕ → Response → Response
  keep_alive_headers count r = record r {
    headers =
        emplace (fold_case env.boost) (codes "Keep-Alive") (keep_alive_value count)
          (emplace (fold_case env.boost) (codes "Connection") (codes "keep-alive") r.headers);
  }

  -- The response before it is sent.
  unfoldable pub answer_of : Bool → ℕ → Request → Response
  answer_of keep_alive count request =
      let response : Response = processed request in
      if keep_alive then keep_alive_headers count response else response

  abbrev pub wants_keep_alive : ℕ → Request → Bool
  wants_keep_alive count request = request.keep_alive && ltb 0 count

  abbrev pub has_timeout : Option Bytes → Bool
  has_timeout none = false
  has_timeout (some seconds) = true

  -- What follows the branch for WebSocket. A timeout that cannot be read throws before anything is
  -- sent.
  unfoldable pub plain_request : ℕ → Request → Connection → Answer
  unfolding answer_of
  plain_request count request c =
      let keep_alive : Bool = wants_keep_alive count request in
      let d : Connection =
        send_response
          (response_to env.boost env.zlib env.date request (answer_of keep_alive count request))
          c in
      if keep_alive
      then if has_timeout env.keep_alive_timeout
        then answered true (set_keep_alive_timeout d)
        else raised c
      else answered false (record d { continue_read = false })

  abbrev pub branched : ℕ → Request → Connection → Option Bool → Answer
  branched count request c none = raised c
  branched count request c (some wanted) =
      if wanted then web_socket_request request c else plain_request count request c

  unfoldable pub proc_http_request : Request → Connection → Answer
  unfolding wants_web_socket web_socket_request plain_request
  proc_http_request request c =
      branched c.keep_alive_count request
        (record c { keep_alive_count = count_down c.keep_alive_count }) (wants_web_socket request)
