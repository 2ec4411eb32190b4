-- ===== src/Http/Connection/Tests.antt =====
-- The HTTP connection at concrete input.
use suda_gureum.Base.AssocMap.{find, emplace}
use suda_gureum.Base.Boost.{ascii_boost}
use suda_gureum.Base.{◌≡◌, refl, Bool, true, false, List, [], ◌∷◌, some, Bytes, codes, take, arith}
use suda_gureum.Http.Connection.Answers.InOrder.{run-Answers}
use suda_gureum.Http.Connection.Answers.{requests_of, Answers}
use suda_gureum.Http.Connection.Reads.{Call, calls, completes, Execution, run}
use suda_gureum.Http.Connection.Requests.{wants_web_socket}
use suda_gureum.Http.Connection.{Environment, Connection, new_connection}
use suda_gureum.Http.Parser.{
  Callback, on_url, on_header_field, on_header_value, on_headers_complete, Info, Request, callback,
  append_header_name, append_header_value, complete_header, request_of, complete_form, has_form,
  no_request, get,
}
use suda_gureum.Http.Processors.{register_http_resource_processors, get_resource_processor}
use suda_gureum.Http.Query.{parse_request_target}
use suda_gureum.Http.Tests.{http_parser_numbers}
use suda_gureum.Utility.Tests.{only_letters}
use suda_gureum.Http.Connection.Answers.{last, counted, sent_for}
use suda_gureum.Http.Connection.KeepAlive.Steps.{Reach-Bounded}
use suda_gureum.Http.Connection.KeepAlive.{Bounded, Reach, here, next, reads}
use suda_gureum.Http.Connection.Reads.Cases.{parsing}
use suda_gureum.Http.Connection.Reads.{message_complete, after_parse, handle_read}
use suda_gureum.Http.Connection.Requests.{processed, plain_request, proc_http_request}
use suda_gureum.Http.Connection.Stuck.{connection_of, plain_request-IsStuck}
use suda_gureum.Http.Connection.Upgrade.{one_message, heard}
use suda_gureum.Http.Connection.{read, send_response}
use suda_gureum.Http.Parser.{callbacks}
use suda_gureum.Socket.Blocked.{IsStuck}
use suda_gureum.Socket.Order.{start}
use suda_gureum.Socket.Order
use suda_gureum.Socket.{finish_write}
use suda_gureum.WebSocket.Parser.Tests.{plain_json}

abbrev pub env : Environment
env = record {
  boost = ascii_boost;
  zlib = record { compress = λ bytes. bytes };
  numbers = http_parser_numbers;
  hash_sha1 = take 20;
  to_base64 = only_letters;
  processors = register_http_resource_processors [];
  date = codes "Sun, 06 Nov 1994 08:49:37 GMT";
  keep_alive_timeout = some (codes "15");
}

abbrev pub info_of : Bool → Bool → Info
info_of upgrade keep_alive = record {
  method = 1;
  http_minor = 1;
  upgrade = upgrade;
  should_keep_alive = keep_alive;
}

abbrev pub request_to : Bytes → Bool → Bool → Request
request_to target upgrade keep_alive = record no_request {
  method = get;
  http11 = true;
  upgrade = upgrade;
  keep_alive = keep_alive;
  raw_target = target;
  target = target;
  headers = (codes "Host", codes "a") ∷ [];
}

abbrev pub heard_of : Bytes → List Callback
heard_of target =
    on_url target
    ∷ on_header_field (codes "Host")
    ∷ on_header_value (codes " a")
    ∷ on_headers_complete
    ∷ []

abbrev calls_of : List Callback → List Call → List Call
calls_of [] rest = rest
calls_of (cb ∷ cbs) rest = calls cb ∷ calls_of cbs rest

-- Two requests in one read, the second of which closes.
abbrev two_requests : List Call
two_requests = calls_of (heard_of (codes "/")) (
    completes (info_of false true) 20
    ∷ calls_of (heard_of (codes "/no")) (completes (info_of false false) 45 ∷ []))

requests_of-two :
    requests_of env two_requests (new_connection 5).parser
    ≡ some (request_to (codes "/") false true ∷ request_to (codes "/no") false false ∷ [])
unfolding requests_of callback append_header_name append_header_value complete_header request_of
    complete_form has_form parse_request_target emplace
requests_of-two = refl

run-Answers_example :
    Answers env 5
      (request_to (codes "/") false true ∷ request_to (codes "/no") false false ∷ [])
      (new_connection 5)
      (run env two_requests false 45 (new_connection 5))
unfolding wants_web_socket
run-Answers_example =
    run-Answers env two_requests false 45 (new_connection 5)
      (request_to (codes "/") false true ∷ request_to (codes "/no") false false ∷ [])
      requests_of-two (refl, (refl, tt)) refl

abbrev get_index : Bytes
get_index = codes "GET / HTTP/1.1\r\nHost: a\r\n\r\n"

-- One request that closes, in a read of its own.
abbrev closing : Execution
closing = record {
  made = one_message (heard_of (codes "/")) (info_of false false) 27;
  upgrade = false;
  parsed = 27;
}

abbrev pub waiting : Connection
waiting = read (new_connection 5)

abbrev answered_once : Connection
answered_once =
    last env 5 (request_to (codes "/") false false)
      (counted env (heard env (heard_of (codes "/")) (parsing waiting)))

Reach-answered_once : Reach env plain_json waiting answered_once
unfolding send_response handle_read after_parse run message_complete proc_http_request
    wants_web_socket plain_request callbacks callback append_header_name append_header_value
    complete_header request_of complete_form has_form parse_request_target emplace
Reach-answered_once =
    next here (reads false get_index closing refl (tt, (tt, (tt, (tt, (refl, tt))))) refl)

Reach-Bounded_example : Bounded 5 answered_once
Reach-Bounded_example =
    Reach-Bounded env plain_json 5 answered_once (omega arith) Reach-answered_once

-- A processor that leaves the body empty.
abbrev blank_env : Environment
blank_env = record env { processors = (codes "/", λ request response. some response) ∷ [] }

abbrev blank_head : Bytes
blank_head = (sent_for blank_env true 5 (request_to (codes "/") false true)).0

abbrev blank_answered : Connection
blank_answered =
    connection_of blank_env (plain_request blank_env 5 (request_to (codes "/") false true) waiting)

plain_request-IsStuck_example :
    IsStuck (blank_head ∷ []) (start (finish_write false blank_answered.writer))
unfolding processed get_resource_processor find
plain_request-IsStuck_example =
    plain_request-IsStuck blank_env 5 (request_to (codes "/") false true) waiting
      (start (finish_write false blank_answered.writer)) refl refl refl refl Order.Reach.here
