-- ===== src/Http/Response.antt =====
-- `httpStatusMessage` and the two `sendHttpResponse` (HttpServer.cpp): the text of a response. The date
-- is an argument; zlib and Boost's search are parameters.
pub mod Framing
pub mod Empty
use suda_gureum.Base.{
  ℕ, ◌+◌, Bool, true, false, List, [], ◌∷◌, ◌++◌, Option, none, some, ◌==◌, ltb, if◌then◌else◌,
  length, Bytes, codes,
}
use suda_gureum.Base.AssocMap.{AssocMap, find, emplace, insert_or_assign}
use suda_gureum.Base.Boost.{Boost, fold_case}
use suda_gureum.Base.Decimal.{decimal}
use suda_gureum.Base.Ordered.{in_order}
use suda_gureum.Http.Parser.{Request}

-- `HttpResponse`
pub record Response : Type 0 where
  pub status : ℕ
  pub headers : AssocMap Bytes
  pub body : Bytes

abbrev pub no_response : Response
no_response = record { status = 0; headers = []; body = [] }

pub http_status_message : ℕ → Bytes
http_status_message status =
    if status == 100
    then codes "Continue"
    else if status == 101
    then codes "Switching Protocols"
    else if status == 200
    then codes "OK"
    else if status == 201
    then codes "Created"
    else if status == 202
    then codes "Accepted"
    else if status == 203
    then codes "Non-Authoritative Information"
    else if status == 204
    then codes "No Content"
    else if status == 205
    then codes "Reset Content"
    else if status == 206
    then codes "Partial Content"
    else if status == 300
    then codes "Multiple Choices"
    else if status == 301
    then codes "Moved Permanently"
    else if status == 302
    then codes "Found"
    else if status == 303
    then codes "See Other"
    else if status == 304
    then codes "Not Modified"
    else if status == 305
    then codes "Use Proxy"
    else if status == 307
    then codes "Temporary Redirect"
    else if status == 400
    then codes "Bad Request"
    else if status == 401
    then codes "Unauthorized"
    else if status == 402
    then codes "Payment Required"
    else if status == 403
    then codes "Forbidden"
    else if status == 404
    then codes "Not Found"
    else if status == 405
    then codes "Method Not Allowed"
    else if status == 406
    then codes "Not Acceptable"
    else if status == 407
    then codes "Proxy Authentication Required"
    else if status == 408
    then codes "Request Time-out"
    else if status == 409
    then codes "Conflict"
    else if status == 410
    then codes "Gone"
    else if status == 411
    then codes "Length Required"
    else if status == 412
    then codes "Precondition Failed"
    else if status == 413
    then codes "Request Entity Too Large"
    else if status == 414
    then codes "Request-URI Too Large"
    else if status == 415
    then codes "Unsupported Media Type"
    else if status == 416
    then codes "Requested range not satisfiable"
    else if status == 417
    then codes "Expectation Failed"
    else if status == 500
    then codes "Internal Server Error"
    else if status == 501
    then codes "Not Implemented"
    else if status == 502
    then codes "Bad Gateway"
    else if status == 503
    then codes "Service Unavailable"
    else if status == 504
    then codes "Gateway Time-out"
    else if status == 505
    then codes "HTTP Version not supported"
    else codes "Unknown"

abbrev pub crlf : Bytes
crlf = b'\r' ∷ b'\n' ∷ []

-- The lines of the head, each up to its end.
abbrev pub status_line : Bytes → ℕ → Bytes
status_line version status =
    codes "HTTP/" ++ (version ++ (b' ' ∷ (decimal status ++ (b' ' ∷ http_status_message status))))

abbrev pub server_line : Bytes
server_line = codes "Server: SudaGureum HTTP Server"

abbrev pub date_line : Bytes → Bytes
date_line date = codes "Date: " ++ date

abbrev pub length_line : Bytes → Bytes
length_line body = codes "Content-Length: " ++ decimal (length body)

abbrev pub header_line : Bytes × Bytes → Bytes
header_line (name, value) = name ++ (b':' ∷ b' ' ∷ value)

-- A line, its end, and what follows.
unfoldable pub end_line : Bytes → Bytes → Bytes
end_line line rest = line ++ (crlf ++ rest)

abbrev pub header_lines : AssocMap Bytes → Bytes
header_lines [] = crlf
header_lines (h ∷ hs) = end_line (header_line h) (header_lines hs)

-- `headerField`
pub header_field : Boost → Bytes → Bytes → Response → Bytes
header_field boost version date r = end_line (status_line version r.status) (
    end_line server_line (
      end_line (date_line date)
        (end_line (length_line r.body) (header_lines (in_order (fold_case boost) r.headers)))))

-- What is used of zlib: `compress2` into a buffer 32 bytes larger than the body.
pub record Zlib : Type 0 where
  pub compress : Bytes → Bytes

abbrev pub version_of : Bool → Bytes
version_of true = codes "1.1"
version_of false = codes "1.0"

module _ (boost : Boost) (zlib : Zlib) where
  -- With no such header `at` throws, which is caught.
  abbrev pub use_deflate : Request → Bool
  use_deflate request = elim (find (fold_case boost) (codes "Accept-Encoding") request.headers) [
    | none ↦ false
    | some encodings ↦ boost.ifind encodings (codes "deflate")
  ]

  -- The compressed body is taken only if it is shorter.
  abbrev pub deflated : Response → Bytes → Response
  deflated r buf =
      if ltb (length buf) (length r.body)
      then record r {
        headers =
            insert_or_assign (fold_case boost) (codes "Content-Encoding") (codes "deflate")
              r.headers;
        body = buf;
      }
      else r

  pub encoded : Request → Response → Response
  encoded request r = if use_deflate request then deflated r (zlib.compress r.body) else r

  -- `insert` keeps a header that is there.
  abbrev pub with_connection : Response → Response
  with_connection r = record r {
    headers = emplace (fold_case boost) (codes "Connection") (codes "close") r.headers;
  }

  -- The two strings sent for a response, of the form with the request and of the one without.
  pub response_to : Bytes → Request → Response → Bytes × Bytes
  unfolding encoded
  response_to date request r =
      let final : Response = with_connection (encoded request r) in
      (header_field boost (version_of request.http11) date final, final.body)

abbrev pub plain_response : Boost → Bytes → Response → Bytes × Bytes
plain_response boost date r = (header_field boost (codes "1.1") date r, r.body)

-- `sendBadRequestResponse`
abbrev pub bad_request : Response
bad_request = record {
  status = 403;
  headers = (codes "Content-Type", codes "text/plain") ∷ [];
  body = codes "Bad request";
}
