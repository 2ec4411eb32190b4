-- ===== src/Http/Query.antt =====
-- `parseQueryString` and `parseRequestTarget` (HttpParser.cpp). `Queries` is a multimap: the entries
-- are listed in the order in which they were inserted.
pub mod RoundTrip
use suda_gureum.Base.{
  ℕ, Bool, true, false, ◌||◌, List, [], ◌∷◌, ◌++◌, Option, none, some, ◌==◌, if◌then◌else◌, Bytes,
  is_empty, split_on,
}
use suda_gureum.Utility.Uri.{decode_query_string}

abbrev pub Queries : Type 0
Queries = List (Bytes × Bytes)

-- The string before and behind the first such byte.
abbrev pub cut : ℕ → Bytes → Option (Bytes × Bytes)
cut b [] = none
cut b (c ∷ cs) =
    if c == b
    then some ([], cs)
    else elim (cut b cs) [ none ↦ none | some (before, behind) ↦ some (c ∷ before, behind) ]

abbrev pub pair_of : Option Bytes → Option Bytes → Option (Bytes × Bytes)
pair_of (some name) (some value) = some (name, value)
pair_of _ _ = none

-- The entry of one piece; `none` when `decodeQueryString` throws.
unfoldable pub entry_of : Bytes → Option (Bytes × Bytes)
entry_of piece = elim (cut b'=' piece) [
  | some (name, value) ↦ pair_of (decode_query_string name) (decode_query_string value)
  | none ↦ pair_of (decode_query_string piece) (some [])
]

-- What the queries are, and what is returned.
pub record Parsed : Type 0 where
  pub queries : Queries
  pub ok : Bool

abbrev pub is_separator : ℕ → Bool
is_separator c = (c == b'&') || (c == b';')

abbrev pub insert_entry : Option (Bytes × Bytes) → Queries → Parsed
insert_entry none queries = record { queries = queries; ok = false }
insert_entry (some e) queries = record { queries = queries ++ e ∷ []; ok = true }

abbrev pub then_pieces : Parsed → (Queries → Parsed) → Parsed
then_pieces p rest = if p.ok then rest p.queries else p

-- The rounds of the loop, on the pieces between the separators. An empty piece is passed over
-- unless it is the last one: then `nextPos` is `npos`, which differs from `prevPos`.
unfoldable pub pieces_loop : List Bytes → Queries → Parsed
unfolding entry_of
pieces_loop [] queries = record { queries = queries; ok = true }
pieces_loop (piece ∷ []) queries = insert_entry (entry_of piece) queries
pieces_loop (piece ∷ next ∷ pieces) queries =
    then_pieces
      (if is_empty piece
        then record { queries = queries; ok = true }
        else insert_entry (entry_of piece) queries)
      (pieces_loop (next ∷ pieces))

unfoldable pub parse_query_string : Bytes → Queries → Parsed
unfolding pieces_loop
parse_query_string raw queries = pieces_loop (split_on is_separator raw) queries

pub record ParsedTarget : Type 0 where
  pub target : Bytes
  pub queries : Queries
  pub ok : Bool

abbrev no_target : Queries → ParsedTarget
no_target queries = record { target = []; queries = queries; ok = false }

abbrev with_query : Bytes → Parsed → ParsedTarget
with_query target p = record { target = target; queries = p.queries; ok = p.ok }

-- The target is empty where `target` is not assigned.
unfoldable pub parse_request_target : Bytes → Queries → ParsedTarget
unfolding parse_query_string
parse_request_target [] queries = no_target queries
parse_request_target (c ∷ cs) queries =
    if c == b'/'
    then elim (cut b'?' (c ∷ cs)) [
      | none ↦ record { target = c ∷ cs; queries = queries; ok = true }
      | some (target, raw) ↦ with_query target (parse_query_string raw queries)
    ]
    else no_target queries
