-- ===== src/Http/Response/Empty.antt =====
-- A response with no body stays one, and a head is never empty.
use suda_gureum.Base.Boost.{Boost}
use suda_gureum.Base.{◌≡◌, refl, false, [], Bytes, is_empty, arith}
use suda_gureum.Http.Parser.{Request}
use suda_gureum.Http.Response.{Response, Zlib, encoded, response_to, header_field, end_line}

module _ (boost : Boost) (zlib : Zlib) where
  encoded-empty :
      (request : Request) (r : Response) → r.body ≡ [] → (encoded boost zlib request r).body ≡ []
  unfolding encoded
  encoded-empty request r h = ground (arith, h)

  pub response_to-empty :
      (date : Bytes) (request : Request) (r : Response)
      → r.body ≡ []
      → (response_to boost zlib date request r).1 ≡ []
  unfolding response_to
  response_to-empty date request r h = encoded-empty request r h

  pub response_to-filled :
      (date : Bytes) (request : Request) (r : Response)
      → is_empty (response_to boost zlib date request r).0 ≡ false
  unfolding response_to header_field end_line
  response_to-filled date request r = refl
