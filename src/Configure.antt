-- ===== src/Configure.antt =====
-- Configure.h and Configure.cpp: the configuration file, once its bytes are read.
pub mod Entries
pub mod Tests
use suda_gureum.Base.{
  ℕ, Bool, true, false, ◌&&◌, List, [], ◌∷◌, Option, none, some, ◌==◌, if◌then◌else◌, Bytes,
  split_on,
}
use suda_gureum.Base.AssocMap.{AssocMap, find, emplace}
use suda_gureum.Base.Boost.{Boost}

abbrev pub ConfigureMap : Type 0
ConfigureMap = AssocMap Bytes

-- `std::map` with the order of `std::string`.
abbrev pub same_name : Bytes → Bytes
same_name name = name

abbrev pub skip_bom : Bytes → Bytes
skip_bom (a ∷ b ∷ c ∷ rest) =
    if (a == 0xef) && (b == 0xbb) && (c == 0xbf) then rest else a ∷ b ∷ c ∷ rest
skip_bom text = text

-- The string that ends at the first zero byte.
abbrev pub until_zero : Bytes → Bytes
until_zero [] = []
until_zero (c ∷ cs) = if c == 0 then [] else c ∷ until_zero cs

-- The name and the value of a line, before they are trimmed.
abbrev pub cut_equal : Bytes → Option (Bytes × Bytes)
cut_equal [] = none
cut_equal (c ∷ cs) =
    if c == b'='
    then some ([], cs)
    else elim (cut_equal cs) [ none ↦ none | some (n, v) ↦ some (c ∷ n, v) ]

-- The tests of the trimmed name.
unfoldable pub store : Bytes → Bytes → ConfigureMap → ConfigureMap
store [] value conf_map = conf_map
store (c ∷ name) value conf_map =
    if c == b'#' then conf_map else emplace same_name (c ∷ name) value conf_map

module _ (boost : Boost) where
  unfoldable pub load_line : Bytes → ConfigureMap → ConfigureMap
  unfolding store
  load_line line conf_map = elim (cut_equal line) [
    | none ↦ conf_map
    | some (name, value) ↦ store (boost.trim name) (boost.trim value) conf_map
  ]

  unfoldable pub load_lines : List Bytes → ConfigureMap → ConfigureMap
  unfolding load_line
  load_lines [] conf_map = conf_map
  load_lines (line ∷ lines) conf_map = load_lines lines (load_line line conf_map)

  -- `load`, on the bytes of the file. A line end at the end of the file adds an empty line.
  unfoldable pub load : Bytes → ConfigureMap → ConfigureMap
  unfolding load_lines
  load file conf_map = load_lines (split_on (λ c. c == b'\n') (until_zero (skip_bom file))) conf_map

unfoldable pub get : Bytes → ConfigureMap → Option Bytes
get name conf_map = find same_name name conf_map

abbrev is_some {ℓ} : {A : Type ℓ} → Option A → Bool
is_some none = false
is_some (some a) = true

pub exists : Bytes → ConfigureMap → Bool
exists name conf_map = is_some (find same_name name conf_map)

-- `getAs`: the cast is a parameter, whose `none` is an exception.
unfoldable pub get_as {ℓ} : {T : Type ℓ} → (Bytes → Option T) → Bytes → T → ConfigureMap → Option T
unfolding get
get_as lexical_cast name default_value conf_map = elim (get name conf_map) [
  | none ↦ some default_value
  | some value ↦ lexical_cast value
]
