-- ===== src/Configure/Tests.antt =====
-- The configuration at concrete input.
use suda_gureum.Base.Boost.{ascii_boost}
use suda_gureum.Base.{◌≡◌, refl, List, [], ◌∷◌, codes, All, arith}
use suda_gureum.Configure.Entries.{Line, entry, remark, print, IsLine, first_value, get-load}
use suda_gureum.Configure.{load, get}

abbrev conf : List Line
conf =
    remark (codes "# ports")
    ∷ entry (codes "http_server_port") (codes "44444")
    ∷ entry (codes "http_server_port") (codes "80")
    ∷ []

conf-IsLine : All (IsLine ascii_boost) conf
conf-IsLine = ground arith

get-load_example :
    get (codes "http_server_port") (load ascii_boost (0xef ∷ 0xbb ∷ 0xbf ∷ print conf) [])
    ≡ first_value ascii_boost conf (codes "http_server_port")
get-load_example =
    get-load ascii_boost (0xef ∷ 0xbb ∷ 0xbf ∷ print conf) conf (codes "http_server_port") refl
      conf-IsLine
