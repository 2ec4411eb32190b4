-- ===== src/Http/Parser.antt =====
-- `HttpParser` (HttpParser.cpp): what the callbacks of http-parser do. The library itself is not part
-- of the repository: a run is a list of the calls it makes, and the method numbers are parameters.
pub mod Headers
pub mod Form
pub mod Flags
use suda_gureum.Base.{
  ℕ, Bool, true, false, not, ◌&&◌, List, [], ◌∷◌, ◌++◌, Option, none, some, ◌==◌, if◌then◌else◌,
  Bytes, codes,
}
use suda_gureum.Base.AssocMap.{AssocMap, find, emplace}
use suda_gureum.Base.Boost.{Boost, fold_case}
use suda_gureum.Http.Query.{Queries, Parsed, ParsedTarget, parse_query_string, parse_request_target}

pub data Method : Type 0 where
  get head post other : Method

pub record Request : Type 0 where
  pub method : Method
  pub http11 : Bool
  pub upgrade : Bool
  pub keep_alive : Bool
  pub raw_target : Bytes
  pub target : Bytes
  pub queries : Queries
  pub headers : AssocMap Bytes
  pub raw_body : Bytes

abbrev pub no_request : Request
no_request = record {
  method = other;
  http11 = false;
  upgrade = false;
  keep_alive = false;
  raw_target = [];
  target = [];
  queries = [];
  headers = [];
  raw_body = [];
}

pub record Parser : Type 0 where
  pub request : Request
  pub called_header_value : Bool
  pub current_header_name : Bytes
  pub current_header_value : Bytes

abbrev pub initial : Parser
initial = record {
  request = no_request;
  called_header_value = false;
  current_header_name = [];
  current_header_value = [];
}

-- What `http_parser` holds at the end of a message.
pub record Info : Type 0 where
  pub method : ℕ
  pub http_minor : ℕ
  pub upgrade : Bool
  pub should_keep_alive : Bool

-- `HTTP_GET`, `HTTP_HEAD` and `HTTP_POST`
pub record MethodNumbers : Type 0 where
  pub http_get : ℕ
  pub http_head : ℕ
  pub http_post : ℕ

-- `static_cast<int>` of a `Method`
abbrev pub method_value : Method → ℕ
method_value get = 0
method_value head = 1
method_value post = 2
method_value other = 3

abbrev pub method_of : MethodNumbers → ℕ → Method
method_of numbers n =
    if n == numbers.http_get
    then get
    else if n == numbers.http_head
    then head
    else if n == numbers.http_post
    then post
    else other

pub data Callback : Type 0 where
  on_url : Bytes → Callback
  on_header_field : Bytes → Callback
  on_header_value : Bytes → Callback
  on_headers_complete : Callback
  on_body : Bytes → Callback

module _ (boost : Boost) where
  unfoldable pub complete_header : Parser → Parser
  complete_header p = record p {
    request = record p.request {
      headers =
          emplace (fold_case boost) (boost.trim p.current_header_name)
            (boost.trim p.current_header_value) p.request.headers;
    };
    called_header_value = false;
    current_header_name = [];
    current_header_value = [];
  }

  abbrev pub append_name : Bytes → Parser → Parser
  append_name str p = record p { current_header_name = p.current_header_name ++ str }

  unfoldable pub append_header_name : Bytes → Parser → Parser
  unfolding complete_header
  append_header_name str p =
      if p.called_header_value then append_name str (complete_header p) else append_name str p

  unfoldable pub append_header_value : Bytes → Parser → Parser
  append_header_value str p = record p {
    called_header_value = true;
    current_header_value = p.current_header_value ++ str;
  }

  unfoldable pub callback : Callback → Parser → Parser
  unfolding append_header_name append_header_value complete_header
  callback (on_url str) p = record p {
    request = record p.request { raw_target = p.request.raw_target ++ str };
  }
  callback (on_header_field str) p = append_header_name str p
  callback (on_header_value str) p = append_header_value str p
  callback on_headers_complete p = complete_header p
  callback (on_body str) p = record p {
    request = record p.request { raw_body = p.request.raw_body ++ str };
  }

  unfoldable pub callbacks : List Callback → Parser → Parser
  unfolding callback
  callbacks [] p = p
  callbacks (c ∷ cs) p = callbacks cs (callback c p)

module _ (boost : Boost) (numbers : MethodNumbers) where
  abbrev pub with_info : Info → Request → Request
  with_info info r = record r {
    method = method_of numbers info.method;
    http11 = if not (info.http_minor == 0) then true else r.http11;
    upgrade = info.upgrade;
    keep_alive = info.should_keep_alive;
  }

  abbrev pub form_type : Bytes
  form_type = codes "application/x-www-form-urlencoded"

  -- Whether the body is parsed; with no such header `at` throws, which is caught.
  unfoldable pub has_form : Info → Request → Bool
  has_form info r =
      info.method == method_value post
      && elim (find (fold_case boost) (codes "Content-Type") r.headers) [
        | none ↦ false
        | some content_type ↦ boost.iequals content_type form_type
      ]

  abbrev pub with_body : Request → Parsed → Option Request
  with_body r p = if p.ok then some (record r { queries = p.queries }) else none

  unfoldable pub complete_form : Info → Request → Option Request
  unfolding has_form
  complete_form info r =
      if has_form info r then with_body r (parse_query_string r.raw_body r.queries) else some r

  abbrev pub with_target : Info → Request → ParsedTarget → Option Request
  with_target info r t =
      if t.ok
      then complete_form info (record r { target = t.target; queries = t.queries })
      else none

  -- The request that the callback gets; `none` is `return false` before that.
  unfoldable pub request_of : Info → Request → Option Request
  unfolding complete_form
  request_of info r =
      with_target info (with_info info r) (parse_request_target r.raw_target r.queries)

  -- `Finally` resets the request in all cases.
  pub complete_request : (Request → Bool) → Info → Parser → Parser × Bool
  unfolding request_of
  complete_request current_callback info p = (
    record p { request = no_request },
    elim (request_of info p.request) [ none ↦ false | some r ↦ current_callback r ],
  )
