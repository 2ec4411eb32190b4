-- ===== src/Http/Response/Framing.antt =====
-- What a client reads of a response: the lines of the head, up to the empty one, and the body.
use suda_gureum.Base.AssocMap.{AssocMap, emplace-All, insert_or_assign-All}
use suda_gureum.Base.Boost.{Boost, fold_case}
use suda_gureum.Base.Decimal.{
  decimal, decimal-AreDigits, AreDigits, read_digits, read_digits-decimal,
}
use suda_gureum.Base.Ordered.{in_order, in_order-All}
use suda_gureum.Base.{
  ℕ, ◌≡◌, refl, ap, sym, ◌∙◌, Bool, true, false, inl, inr, Bool-cases, ltb, List, [], ◌∷◌, ◌++◌,
  map, append_assoc, append-nil, Option, none, some, ◌==◌, if◌then◌else◌, length, Bytes, codes, All,
  All-append, is_empty, arith,
}
use suda_gureum.Http.Parser.{Request}
use suda_gureum.Http.Response.{
  Response, Zlib, http_status_message, crlf, end_line, status_line, server_line, date_line,
  length_line, header_line, header_lines, header_field, version_of, use_deflate, deflated, encoded,
  with_connection, response_to,
}

abbrev pub add_line : Bytes → Option (List Bytes × Bytes) → Option (List Bytes × Bytes)
add_line line none = none
add_line line (some (lines, rest)) = some (line ∷ lines, rest)

-- A reader: it drops carriage returns and ends a line at each line feed. What it returns is the
-- lines before the empty one and the bytes behind that.
abbrev pub read_head : Bytes → Bytes → Option (List Bytes × Bytes)
read_head line [] = none
read_head line (c ∷ cs) =
    if c == b'\n'
    then (if is_empty line then some ([], cs) else add_line line (read_head [] cs))
    else read_head (if c == b'\r' then line else line ++ c ∷ []) cs

-- What stands behind a prefix.
abbrev pub behind : Bytes → Bytes → Option Bytes
behind [] s = some s
behind (p ∷ ps) [] = none
behind (p ∷ ps) (c ∷ cs) = if p == c then behind ps cs else none

-- The number in the first line that gives a length.
abbrev pub content_length : List Bytes → Option ℕ
content_length [] = none
content_length (line ∷ lines) =
    let rest : Option ℕ = content_length lines in
    elim (behind (codes "Content-Length: ") line) [
      | none ↦ rest
      | some digits ↦ some (read_digits 0 digits)
    ]

-- No carriage return and no line feed.
abbrev pub IsText : Bytes → Type 0
IsText = All (λ c. ((c == b'\r') ≡ false) × ((c == b'\n') ≡ false))

read_head-IsText :
    (s line rest : Bytes) → IsText s → read_head line (s ++ rest) ≡ read_head (line ++ s) rest
read_head-IsText [] line rest h = ap (λ l. read_head l rest) (sym (append-nil line))
read_head-IsText (c ∷ s) line rest ((cr, lf), h) =
    ground (arith, read_head-IsText s (line ++ c ∷ []) rest h, append_assoc line (c ∷ []) s)

-- A line with something in it, and its end.
read_head-end_line :
    (line s rest : Bytes)
    → IsText line
    → is_empty line ≡ false
    → read_head [] (end_line line s ++ rest) ≡ add_line line (read_head [] (s ++ rest))
unfolding end_line
read_head-end_line line s rest h filled = ground (
  arith,
  filled,
  append_assoc line (crlf ++ s) rest,
  read_head-IsText line [] (crlf ++ (s ++ rest)) h,
)

IsText-digits : (s : Bytes) → AreDigits s → IsText s
IsText-digits [] h = tt
IsText-digits (c ∷ s) (hc, h) = (ground arith, IsText-digits s h)

http_status_message-IsText : (status : ℕ) → IsText (http_status_message status)
unfolding http_status_message
http_status_message-IsText status = ground arith

abbrev IsText-append : (s t : Bytes) → IsText s → IsText t → IsText (s ++ t)
IsText-append = All-append (λ c. ((c == b'\r') ≡ false) × ((c == b'\n') ≡ false))

-- Neither the name nor the value of the header breaks its line.
abbrev pub IsTextHeader : Bytes × Bytes → Type 0
IsTextHeader (name, value) = IsText name × IsText value

header_line-IsText : (h : Bytes × Bytes) → IsTextHeader h → IsText (header_line h)
header_line-IsText (name, value) (hn, hv) =
    IsText-append name (b':' ∷ b' ' ∷ value) hn ((refl, refl), ((refl, refl), hv))

header_line-filled : (h : Bytes × Bytes) → is_empty (header_line h) ≡ false
header_line-filled ([], value) = refl
header_line-filled (c ∷ name, value) = refl

read_head-header_lines :
    (hs : AssocMap Bytes) (rest : Bytes)
    → All IsTextHeader hs
    → read_head [] (header_lines hs ++ rest) ≡ some (map header_line hs, rest)
read_head-header_lines [] rest h = refl
read_head-header_lines (x ∷ hs) rest (hx, h) =
    read_head-end_line (header_line x) (header_lines hs) rest (header_line-IsText x hx)
      (header_line-filled x)
    ∙ ap (add_line (header_line x)) (read_head-header_lines hs rest h)

status_line-IsText :
    (version : Bytes) (status : ℕ) → IsText version → IsText (status_line version status)
status_line-IsText version status h = IsText-append (codes "HTTP/") _ (ground arith) (
    IsText-append version _ h (
      (refl, refl),
      IsText-append (decimal status) _ (IsText-digits (decimal status) (decimal-AreDigits status))
          ((refl, refl), http_status_message-IsText status),
    ))

length_line-IsText : (body : Bytes) → IsText (length_line body)
length_line-IsText body =
    IsText-append (codes "Content-Length: ") (decimal (length body)) (ground arith)
      (IsText-digits (decimal (length body)) (decimal-AreDigits (length body)))

-- The lines of a head.
abbrev pub lines_of : Boost → Bytes → Bytes → Response → List Bytes
lines_of boost version date r =
    status_line version r.status
    ∷ server_line
    ∷ date_line date
    ∷ length_line r.body
    ∷ map header_line (in_order (fold_case boost) r.headers)

module _ (boost : Boost) where
  pub read_head-header_field :
      (version date : Bytes) (r : Response) (rest : Bytes)
      → IsText version
      → IsText date
      → All IsTextHeader r.headers
      → read_head [] (header_field boost version date r ++ rest)
        ≡ some (lines_of boost version date r, rest)
  unfolding header_field
  read_head-header_field version date r rest hv hd hs =
      read_head-end_line (status_line version r.status) _ rest
        (status_line-IsText version r.status hv) refl
      ∙ ap (add_line (status_line version r.status)) (
          read_head-end_line server_line _ rest (ground arith) refl
          ∙ ap (add_line server_line) (
              read_head-end_line (date_line date) _ rest
                (IsText-append (codes "Date: ") date (ground arith) hd) refl
              ∙ ap (add_line (date_line date)) (
                  read_head-end_line (length_line r.body) _ rest (length_line-IsText r.body) refl
                  ∙ ap (add_line (length_line r.body)) (
                      read_head-header_lines (in_order (fold_case boost) r.headers) rest
                        (in_order-All (fold_case boost) IsTextHeader r.headers hs)))))

module _ (boost : Boost) (zlib : Zlib) where
  deflated-IsTextHeader :
      (r : Response) (buf : Bytes)
      → All IsTextHeader r.headers
      → All IsTextHeader (deflated boost zlib r buf).headers
  deflated-IsTextHeader r buf h = elim (Bool-cases (ltb (length buf) (length r.body))) [
    | inl shorter ↦ rw shorter (
        insert_or_assign-All (fold_case boost) IsTextHeader (codes "Content-Encoding")
          (codes "deflate") r.headers (λ j w hj. (hj.0, ground arith)) (ground arith) h)
    | inr longer ↦ rw longer h
  ]

  encoded-IsTextHeader :
      (request : Request) (r : Response)
      → All IsTextHeader r.headers
      → All IsTextHeader (encoded boost zlib request r).headers
  unfolding encoded
  encoded-IsTextHeader request r h = elim (Bool-cases (use_deflate boost zlib request)) [
    | inl wanted ↦ rw wanted (deflated-IsTextHeader r (zlib.compress r.body) h)
    | inr unwanted ↦ rw unwanted h
  ]

  version_of-IsText : (http11 : Bool) → IsText (version_of http11)
  version_of-IsText true = ground arith
  version_of-IsText false = ground arith

  -- The response as it is sent: compressed if that is asked for and pays off, and with `Connection`.
  abbrev pub final : Request → Response → Response
  final request r = with_connection boost zlib (encoded boost zlib request r)

  -- A client that reads what is sent for a response, whose date and headers have no line breaks: it
  -- finds the status line, the server, the date, the length and one line for each header in the
  -- order of the map, then exactly the body, in front of whatever follows; and the number that it
  -- reads in the line of the length is the number of bytes of that body.
  pub read_head-response_to :
      (date : Bytes) (request : Request) (r : Response) (rest : Bytes)
      → IsText date
      → All IsTextHeader r.headers
      → (read_head [] (
            (response_to boost zlib date request r).0
            ++ ((response_to boost zlib date request r).1 ++ rest))
          ≡ some (
            lines_of boost (version_of request.http11) date (final request r),
            (response_to boost zlib date request r).1 ++ rest,
          ))
        × (content_length (lines_of boost (version_of request.http11) date (final request r))
            ≡ some (length (response_to boost zlib date request r).1))
  unfolding response_to
  read_head-response_to date request r rest hd hs = (
    read_head-header_field boost (version_of request.http11) date (final request r)
        ((final request r).body ++ rest) (version_of-IsText request.http11) hd
        (emplace-All (fold_case boost) IsTextHeader (codes "Connection") (codes "close")
          (encoded boost zlib request r).headers (ground arith)
          (encoded-IsTextHeader request r hs)),
    ap some (read_digits-decimal (length (final request r).body)),
  )
