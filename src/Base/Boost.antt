-- ===== src/Base/Boost.antt =====
-- What the code takes from Boost's string algorithms and regular expressions, which are not part
-- of the repository: an interface with the documented behaviour of each call as a law.
use mathlib.Core.Path.{◌≡◌, refl}
use mathlib.Core.Bool.{Bool, true, false, ◌&&◌, ◌||◌, not}
use mathlib.Core.List.{List, [], ◌∷◌, map, reverse}
use mathlib.Core.Option.{Option, none, some}
use Prim.Native.Nat.{ℕ, ◌+◌, ◌*◌, ◌-◌}
use suda_gureum.Base.Tests.{◌==◌, leb, if◌then◌else◌}
use suda_gureum.Base.Lists.{length}
use suda_gureum.Base.Text.{Bytes, bytes_eq, all_of, is_empty, split_on}

abbrev pub is_alpha : ℕ → Bool
is_alpha c = (leb b'A' c && leb c b'Z') || (leb b'a' c && leb c b'z')

abbrev pub is_digit : ℕ → Bool
is_digit c = leb b'0' c && leb c b'9'

-- The language of `[A-Za-z]+|[0-9]{3}`.
abbrev pub command_shape : Bytes → Bool
command_shape s = (not (is_empty s) && all_of is_alpha s) || (length s == 3 && all_of is_digit s)

-- The letters of the group before the closing parenthesis, and what stands behind it.
abbrev pub letters_until : Bytes → Option (Bytes × Bytes)
letters_until [] = none
letters_until (c ∷ cs) =
    if c == b')'
    then some ([], cs)
    else if is_alpha c
    then elim (letters_until cs) [ some (w, rest) ↦ some (c ∷ w, rest) | none ↦ none ]
    else none

abbrev pub both_filled : Option (Bytes × Bytes) → Option (Bytes × Bytes)
both_filled none = none
both_filled (some (w, rest)) = if is_empty w || is_empty rest then none else some (w, rest)

-- The groups of `\(([A-Za-z]+)\)(.+)`.
abbrev pub prefix_groups : Bytes → Option (Bytes × Bytes)
prefix_groups [] = none
prefix_groups (c ∷ cs) = if c == b'(' then both_filled (letters_until cs) else none

pub record Boost : Type 0 where
  -- `boost::algorithm::split`, with adjacent separators not merged
  pub split : (ℕ → Bool) → Bytes → List Bytes
  pub split_lem : (p : ℕ → Bool) (s : Bytes) → split p s ≡ split_on p s
  -- `boost::regex_match` with `[A-Za-z]+|[0-9]{3}`
  pub match_command : Bytes → Bool
  pub match_command_lem : (s : Bytes) → match_command s ≡ command_shape s
  -- `boost::regex_match` with `\(([A-Za-z]+)\)(.+)`: the two groups
  pub match_prefix : Bytes → Option (Bytes × Bytes)
  pub match_prefix_lem : (s : Bytes) → match_prefix s ≡ prefix_groups s
  -- `boost::algorithm::is_space()` in the global locale
  pub is_space : ℕ → Bool
  -- `boost::lexical_cast<time_t>`, as a 64-bit word; `none` is `bad_lexical_cast`
  pub lexical_cast_time : Bytes → Option ℕ
  -- `boost::ifind_first`, as a test, in the global locale
  pub ifind : Bytes → Bytes → Bool
  -- `boost::trim` in the global locale
  pub trim : Bytes → Bytes
  -- the upper-case form of a character in the global locale, and `boost::algorithm::iequals`
  pub to_upper : ℕ → ℕ
  pub iequals : Bytes → Bytes → Bool
  pub iequals_lem : (a b : Bytes) → iequals a b ≡ bytes_eq (map to_upper a) (map to_upper b)

-- An instance over the ASCII letters, which meets the laws.
abbrev ascii_upper : ℕ → ℕ
ascii_upper c = if leb b'a' c && leb c b'z' then c - 32 else c

abbrev decimal : ℕ → Bytes → Option ℕ
decimal n [] = some n
decimal n (c ∷ cs) = if is_digit c then decimal (10 * n + (c - b'0')) cs else none

abbrev ascii_space : ℕ → Bool
ascii_space c = c == b' ' || (leb b'\t' c && leb c b'\r')

-- Whether the first string stands somewhere in the second.
abbrev pub is_prefix : Bytes → Bytes → Bool
is_prefix [] s = true
is_prefix (c ∷ cs) [] = false
is_prefix (c ∷ cs) (d ∷ ds) = (c == d) && is_prefix cs ds

abbrev pub is_infix : Bytes → Bytes → Bool
is_infix t [] = is_prefix t []
is_infix t (c ∷ cs) = is_prefix t (c ∷ cs) || is_infix t cs

abbrev skip_spaces : Bytes → Bytes
skip_spaces [] = []
skip_spaces (c ∷ cs) = if ascii_space c then skip_spaces cs else c ∷ cs

abbrev pub ascii_boost : Boost
ascii_boost = record {
  split = split_on;
  split_lem = λ p s. refl;
  match_command = command_shape;
  match_command_lem = λ s. refl;
  match_prefix = prefix_groups;
  match_prefix_lem = λ s. refl;
  is_space = ascii_space;
  ifind = λ s t. is_infix (map ascii_upper t) (map ascii_upper s);
  trim = λ s. reverse (skip_spaces (reverse (skip_spaces s)));
  lexical_cast_time = λ s. if is_empty s then none else decimal 0 s;
  to_upper = ascii_upper;
  iequals = λ a b. bytes_eq (map ascii_upper a) (map ascii_upper b);
  iequals_lem = λ a b. refl;
}

-- The comparator's normal form (`LessCaseInsensitive`).
abbrev pub fold_case : Boost → Bytes → Bytes
fold_case boost = map boost.to_upper
