-- ===== src/Http/Parser/Headers.antt =====
-- Headers that arrive in pieces.
use mathlib.Core.List.{flatten}
use suda_gureum.Base.{
  ◌≡◌, refl, ap, ◌∙◌, Bool, true, false, List, [], ◌∷◌, ◌++◌, map, append_assoc, append-nil, Bytes,
}
use suda_gureum.Base.AssocMap.{AssocMap, emplace}
use suda_gureum.Base.Boost.{Boost, fold_case}
use suda_gureum.Http.Parser.{
  Parser, Request, Callback, on_header_field, on_header_value, on_headers_complete, complete_header,
  append_header_name, append_header_value, callback, callbacks,
}

-- A header in the pieces in which its name and its value arrive: one of each at least.
pub record Pieces : Type 0 where
  pub name : Bytes
  pub more_name : List Bytes
  pub value : Bytes
  pub more_value : List Bytes

abbrev pub calls_of : Pieces → List Callback
calls_of h =
    on_header_field h.name
    ∷ (map on_header_field h.more_name
        ++ (on_header_value h.value ∷ map on_header_value h.more_value))

abbrev pub all_calls : List Pieces → List Callback
all_calls [] = on_headers_complete ∷ []
all_calls (h ∷ hs) = calls_of h ++ all_calls hs

abbrev pub whole_name : Pieces → Bytes
whole_name h = h.name ++ flatten h.more_name

abbrev pub whole_value : Pieces → Bytes
whole_value h = h.value ++ flatten h.more_value

module _ (boost : Boost) where
  abbrev pub emplace_all : List Pieces → AssocMap Bytes → AssocMap Bytes
  emplace_all [] m = m
  emplace_all (h ∷ hs) m =
      emplace_all hs
        (emplace (fold_case boost) (boost.trim (whole_name h)) (boost.trim (whole_value h)) m)

  callbacks-append :
      (cs ds : List Callback) (p : Parser)
      → callbacks boost (cs ++ ds) p ≡ callbacks boost ds (callbacks boost cs p)
  unfolding callbacks
  callbacks-append [] ds p = refl
  callbacks-append (c ∷ cs) ds p = callbacks-append cs ds (callback boost c p)

  -- The parser between headers, and in one.
  abbrev pub in_header : Request → Bool → Bytes → Bytes → Parser
  in_header r called name value = record {
    request = r;
    called_header_value = called;
    current_header_name = name;
    current_header_value = value;
  }

  callbacks-names :
      (names : List Bytes) (r : Request) (name value : Bytes)
      → callbacks boost (map on_header_field names) (in_header r false name value)
        ≡ in_header r false (name ++ flatten names) value
  unfolding callbacks callback append_header_name flatten
  callbacks-names [] r name value = rw (append-nil name)
  callbacks-names (n ∷ names) r name value =
      rw (callbacks-names names r (name ++ n) value, append_assoc name n (flatten names))

  callbacks-values :
      (values : List Bytes) (r : Request) (called : Bool) (name value : Bytes) (v : Bytes)
      → callbacks boost (map on_header_value (v ∷ values)) (in_header r called name value)
        ≡ in_header r true name (value ++ (v ++ flatten values))
  unfolding callbacks callback append_header_value flatten
  callbacks-values [] r called name value v = rw (append-nil v)
  callbacks-values (w ∷ values) r called name value v = rw (
    callbacks-values values r true name (value ++ v) w,
    append_assoc value v (w ++ flatten values),
  )

  abbrev holding : Request → Pieces → Parser
  holding r h = in_header r true (whole_name h) (whole_value h)

  callbacks-calls :
      (h : Pieces) (r : Request)
      → callbacks boost (calls_of h) (in_header r false [] []) ≡ holding r h
  unfolding flatten
  callbacks-calls h r =
      callbacks-append (map on_header_field (h.name ∷ h.more_name))
        (map on_header_value (h.value ∷ h.more_value)) (in_header r false [] [])
      ∙ ap (callbacks boost (map on_header_value (h.value ∷ h.more_value)))
          (callbacks-names (h.name ∷ h.more_name) r [] [])
      ∙ callbacks-values h.more_value r false (flatten (h.name ∷ h.more_name)) [] h.value

  abbrev with_header : Pieces → Request → Request
  with_header h r = record r {
    headers =
        emplace (fold_case boost) (boost.trim (whole_name h)) (boost.trim (whole_value h))
          r.headers;
  }

  -- The first piece of a name completes the header before it.
  callbacks-next :
      (g h : Pieces) (r : Request)
      → callbacks boost (calls_of h) (holding r g)
        ≡ callbacks boost (calls_of h) (in_header (with_header g r) false [] [])
  unfolding callbacks callback append_header_name complete_header
  callbacks-next g h r = refl

  callbacks-rest :
      (g : Pieces) (hs : List Pieces) (r : Request)
      → callbacks boost (all_calls hs) (holding r g)
        ≡ in_header (record r { headers = emplace_all (g ∷ hs) r.headers }) false [] []
  callbacks-rest g [] r = unfold callbacks callback complete_header in refl
  callbacks-rest g (h ∷ hs) r =
      callbacks-append (calls_of h) (all_calls hs) (holding r g)
      ∙ ap (callbacks boost (all_calls hs))
          (callbacks-next g h r ∙ callbacks-calls h (with_header g r))
      ∙ callbacks-rest h hs (with_header g r)

  -- Headers, one at least, whose names and values arrive in any pieces, and the end of the headers:
  -- each is inserted in order, whole and trimmed (so that the first of one name in any case of
  -- letters stays), and nothing is left for the next message.
  pub callbacks-headers :
      (h : Pieces) (hs : List Pieces) (r : Request)
      → callbacks boost (all_calls (h ∷ hs)) (in_header r false [] [])
        ≡ in_header (record r { headers = emplace_all (h ∷ hs) r.headers }) false [] []
  callbacks-headers h hs r =
      callbacks-append (calls_of h) (all_calls hs) (in_header r false [] [])
      ∙ ap (callbacks boost (all_calls hs)) (callbacks-calls h r)
      ∙ callbacks-rest h hs r
