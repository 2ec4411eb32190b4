-- ===== src/Http/Parser/Flags.antt =====
-- The flags of a request are those of http-parser.
use suda_gureum.Base.Boost.{Boost}
use suda_gureum.Base.{◌≡◌, some, arith}
use suda_gureum.Http.Parser.{
  Info, MethodNumbers, Request, with_info, with_target, complete_form, has_form, request_of,
}
use suda_gureum.Http.Query.{ParsedTarget, parse_request_target}

module _ (boost : Boost) (numbers : MethodNumbers) where
  complete_form-upgrade :
      (info : Info) (r q : Request)
      → complete_form boost numbers info r ≡ some q
      → q.upgrade ≡ r.upgrade
  unfolding complete_form has_form
  complete_form-upgrade info r q h = ground (arith, h)

  with_target-upgrade :
      (info : Info) (r q : Request) (t : ParsedTarget)
      → with_target boost numbers info r t ≡ some q
      → q.upgrade ≡ r.upgrade
  with_target-upgrade info r q t h =
      ground (
        arith,
        h,
        complete_form-upgrade info (record r { target = t.target; queries = t.queries }) q,
      )

  pub request_of-upgrade :
      (info : Info) (r q : Request)
      → request_of boost numbers info r ≡ some q
      → q.upgrade ≡ info.upgrade
  unfolding request_of
  request_of-upgrade info r q h =
      with_target-upgrade info (with_info boost numbers info r) q
        (parse_request_target r.raw_target r.queries) h
