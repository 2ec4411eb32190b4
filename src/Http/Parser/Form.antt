-- ===== src/Http/Parser/Form.antt =====
-- Which bodies are parsed as forms.
use suda_gureum.Base.{◌≡◌, ◌≢◌, Bool, false, if◌then◌else◌, arith}
use suda_gureum.Base.Boost.{Boost}
use suda_gureum.Http.Parser.{
  Info, MethodNumbers, post, method_value, Request, Parser, no_request, has_form, complete_form,
  request_of, complete_request, with_info,
}
use suda_gureum.Http.Query.{ParsedTarget, parse_request_target}

module _ (boost : Boost) (numbers : MethodNumbers) where
  -- The request of a message whose target is read: everything from the headers and the target.
  abbrev pub without_form : Info → Request → ParsedTarget → Request
  without_form info r t = record (with_info boost numbers info r) {
    target = t.target;
    queries = t.queries;
  }

  -- A message whose method has not the number that the enumeration of this program gives to POST: the
  -- callback gets the request with the queries of its target alone, whatever its headers and its
  -- body, when the target is read; it is not called when the target is not; and the request is
  -- reset in both cases.
  pub complete_request-no_form :
      (current_callback : Request → Bool) (info : Info) (p : Parser)
      → info.method ≢ method_value post
      → complete_request boost numbers current_callback info p ≡ (
        record p { request = no_request },
        (let t = parse_request_target p.request.raw_target p.request.queries in
            if t.ok then current_callback (without_form info p.request t) else false),
      )
  unfolding complete_request request_of complete_form has_form
  complete_request-no_form current_callback info p h = ground arith
