-- ===== src/Http/Tests.antt =====
-- The requests at concrete input.
use suda_gureum.Base.Boost.{ascii_boost}
use suda_gureum.Base.{
  ◌≡◌, refl, true, false, [], ◌∷◌, ◌++◌, map, if◌then◌else◌, codes, arith, some, take, length,
}
use suda_gureum.Http.Parser.Form.{complete_request-no_form}
use suda_gureum.Http.Parser.Headers.{Pieces, all_calls, emplace_all, in_header, callbacks-headers}
use suda_gureum.Http.Parser.{
  Info, MethodNumbers, Parser, Request, no_request, initial, callbacks, complete_request, form_type,
}
use suda_gureum.Http.Response.Framing.{
  read_head, content_length, lines_of, final, read_head-response_to,
}
use suda_gureum.Http.Response.{Response, Zlib, version_of, response_to}
use suda_gureum.Http.Query.RoundTrip.{encode_entries, plus_replaced, parse_query_string-encode}
use suda_gureum.Http.Query.{parse_query_string, pieces_loop, entry_of, parse_request_target}
use suda_gureum.Utility.Tests.{unreserved}
use suda_gureum.Utility.Uri.{decode_query_string, decode_uri_component, decode_from}

-- A separator at the end adds an entry with an empty name.
parse_trailing :
    parse_query_string (codes "a=1&&b&") []
    ≡ record { queries = (codes "a", codes "1") ∷ (codes "b", []) ∷ ([], []) ∷ []; ok = true }
unfolding parse_query_string pieces_loop entry_of decode_query_string decode_uri_component
    decode_from
parse_trailing = refl

parse_query_string-encode_example :
    parse_query_string
      (encode_entries unreserved (codes "id", codes "a+b") ((codes "q", codes "&") ∷ []))
      []
    ≡ record {
      queries = [] ++ map plus_replaced ((codes "id", codes "a+b") ∷ (codes "q", codes "&") ∷ []);
      ok = true;
    }
parse_query_string-encode_example =
    parse_query_string-encode unreserved (refl, refl, refl, refl) (codes "id", codes "a+b")
      ((codes "q", codes "&") ∷ []) [] (omega arith)

abbrev host : Pieces
host = record {
  name = codes "Ho";
  more_name = codes "st" ∷ [];
  value = codes " exam";
  more_value = codes "ple" ∷ codes ".org" ∷ [];
}

callbacks-headers_example :
    callbacks ascii_boost (all_calls (host ∷ [])) (in_header ascii_boost no_request false [] [])
    ≡ in_header ascii_boost
        (record no_request { headers = emplace_all ascii_boost (host ∷ []) [] })
        false
        []
        []
callbacks-headers_example = callbacks-headers ascii_boost host [] no_request

-- The numbers of http-parser.
abbrev pub http_parser_numbers : MethodNumbers
http_parser_numbers = record { http_get = 1; http_head = 2; http_post = 3 }

abbrev post_info : Info
post_info = record { method = 3; http_minor = 1; upgrade = false; should_keep_alive = true }

abbrev posted : Parser
posted = record initial {
  request = record no_request {
    raw_target = codes "/login?a=1";
    headers = (codes "Content-Type", form_type ascii_boost http_parser_numbers) ∷ [];
    raw_body = codes "id=me";
  };
}

complete_request-no_form_example :
    complete_request ascii_boost http_parser_numbers (λ r. true) post_info posted ≡ (
      record posted { request = no_request },
      (let t = parse_request_target posted.request.raw_target posted.request.queries in
          if t.ok then true else false),
    )
complete_request-no_form_example =
    complete_request-no_form ascii_boost http_parser_numbers (λ r. true) post_info posted
      (omega arith)

-- A response that is compressed to less, with what follows it.
abbrev accepting : Request
accepting = record no_request {
  http11 = true;
  headers = (codes "Accept-Encoding", codes "gzip, Deflate") ∷ [];
}

abbrev first_byte : Zlib
first_byte = record { compress = take 1 }

abbrev page_response : Response
page_response = record {
  status = 200;
  headers = (codes "Content-Type", codes "text/plain") ∷ [];
  body = codes "Index page";
}

read_head-response_to_example :
    (read_head [] (
        (response_to ascii_boost first_byte (codes "today") accepting page_response).0
        ++ ((response_to ascii_boost first_byte (codes "today") accepting page_response).1
            ++ codes "HTTP"))
      ≡ some (
        lines_of ascii_boost
            (version_of true)
            (codes "today")
            (final ascii_boost first_byte accepting page_response),
        (response_to ascii_boost first_byte (codes "today") accepting page_response).1
            ++ codes "HTTP",
      ))
    × (content_length (
          lines_of ascii_boost
            (version_of true)
            (codes "today")
            (final ascii_boost first_byte accepting page_response))
        ≡ some
            (length (response_to ascii_boost first_byte (codes "today") accepting page_response).1))
read_head-response_to_example =
    read_head-response_to ascii_boost first_byte (codes "today") accepting page_response
      (codes "HTTP") (ground arith) (ground arith)
