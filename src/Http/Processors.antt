-- ===== src/Http/Processors.antt =====
-- The resource processors of `HttpServer` (HttpServer.h, HttpServer.cpp), and those of Application.cpp.
use suda_gureum.Base.AssocMap.{AssocMap, find, emplace}
use suda_gureum.Base.{Bool, true, false, Option, none, some, Bytes, codes}
use suda_gureum.Http.Parser.{Request}
use suda_gureum.Http.Response.{Response}

-- The response that a processor leaves; `none` is `out_of_range`. None of them uses the connection,
-- and what they return is not looked at.
abbrev pub ResourceProcessorFunc : Type 0
ResourceProcessorFunc = Request → Response → Option Response

abbrev pub Processors : Type 0
Processors = AssocMap ResourceProcessorFunc

abbrev pub exact : Bytes → Bytes
exact path = path

-- `insert`, and whether it took place.
pub register_resource_processor : Bytes → ResourceProcessorFunc → Processors → Processors × Bool
register_resource_processor path fn processors = (
  emplace exact path fn processors,
  elim (find exact path processors) [ none ↦ true | some other ↦ false ],
)

-- `at`; `none` is `out_of_range`.
unfoldable pub get_resource_processor : Bytes → Processors → Option ResourceProcessorFunc
get_resource_processor path processors = find exact path processors

-- `response.body_.assign`
abbrev pub page : Bytes → ResourceProcessorFunc
page content request response = some (record response { body = content })

pub register_http_resource_processors : Processors → Processors
unfolding register_resource_processor
register_http_resource_processors processors =
    (register_resource_processor (codes "/test") (page (codes "Test page"))
      (register_resource_processor (codes "/") (page (codes "Index page")) processors).0).0
