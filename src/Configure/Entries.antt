-- ===== src/Configure/Entries.antt =====
-- A file of entries and of lines with no `=`.
use suda_gureum.Base.AssocMap.{emplace, find, find-emplace}
use suda_gureum.Base.Boost.{Boost}
use suda_gureum.Base.{
  ◌≡◌, ◌≢◌, refl, ap, ◌∙◌, List, [], ◌∷◌, ◌++◌, Option, none, some, ◌==◌, if◌then◌else◌, Bytes, All,
  All-append, Lacks, Lacks→avoids, split_on, split_on-append, bytes_eq, arith,
}
use suda_gureum.Configure.{
  ConfigureMap, same_name, skip_bom, until_zero, cut_equal, store, load_line, load_lines, load, get,
}

pub data Line : Type 0 where
  entry : (name : Bytes) (value : Bytes) → Line
  remark : (text : Bytes) → Line

abbrev pub text_of : Line → Bytes
text_of (entry name value) = name ++ b'=' ∷ value
text_of (remark text) = text

abbrev pub print : List Line → Bytes
print [] = []
print (l ∷ ls) = text_of l ++ b'\n' ∷ print ls

-- A byte that stays in its line.
abbrev pub InLine : Bytes → Type 0
InLine s = Lacks 0 s × Lacks b'\n' s

-- A name may not begin like a comment.
abbrev pub IsName : Bytes → Type 0
IsName [] = ⊥
IsName (c ∷ cs) = c ≢ b'#'

abbrev pub IsLine : Boost → Line → Type 0
IsLine boost (entry name value) =
    IsName name
    × Lacks b'=' name
    × InLine name
    × InLine value
    × (boost.trim name ≡ name)
    × (boost.trim value ≡ value)
IsLine boost (remark text) = Lacks b'=' text × InLine text

cut_equal-Lacks : (w rest : Bytes) → Lacks b'=' w → cut_equal (w ++ b'=' ∷ rest) ≡ some (w, rest)
cut_equal-Lacks [] rest h = refl
cut_equal-Lacks (c ∷ w) rest (hc, h) = ground (arith, hc, cut_equal-Lacks w rest h)

cut_equal-none : (w : Bytes) → Lacks b'=' w → cut_equal w ≡ none
cut_equal-none [] h = refl
cut_equal-none (c ∷ w) (hc, h) = ground (arith, hc, cut_equal-none w h)

until_zero-append : (s t : Bytes) → Lacks 0 s → until_zero (s ++ t) ≡ s ++ until_zero t
until_zero-append [] t h = refl
until_zero-append (c ∷ s) t (hc, h) = ground (arith, hc, until_zero-append s t h)

module _ (boost : Boost) where
  -- The first value of each name.
  abbrev pub store_all : List Line → ConfigureMap → ConfigureMap
  store_all [] m = m
  store_all (entry name value ∷ ls) m = store_all ls (emplace same_name name value m)
  store_all (remark text ∷ ls) m = store_all ls m

  text-InLine : (l : Line) → IsLine boost l → InLine (text_of l)
  text-InLine (entry name value) (hn, he, ln, lv, tn, tv) = (
    All-append _ name (b'=' ∷ value) ln.0 (ground arith, lv.0),
    All-append _ name (b'=' ∷ value) ln.1 (ground arith, lv.1),
  )
  text-InLine (remark text) (he, lt) = lt

  until_zero-print : (ls : List Line) → All (IsLine boost) ls → until_zero (print ls) ≡ print ls
  until_zero-print [] h = refl
  until_zero-print (l ∷ ls) (hl, h) = ground (
    arith,
    until_zero-append (text_of l) (b'\n' ∷ print ls) (text-InLine l hl).0,
    until_zero-print ls h,
  )

  load_line-text :
      (l : Line) (m : ConfigureMap)
      → IsLine boost l
      → load_line boost (text_of l) m ≡ store_all (l ∷ []) m
  unfolding load_line store
  load_line-text (entry [] value) m (hn, he, ln, lv, tn, tv) = absurd hn
  load_line-text (entry (c ∷ name) value) m (hn, he, ln, lv, tn, tv) =
      ground (arith, hn, tn, tv, cut_equal-Lacks (c ∷ name) value he)
  load_line-text (remark text) m (he, lt) = ground (arith, cut_equal-none text he)

  store_all-cons :
      (l : Line) (ls : List Line) (m : ConfigureMap)
      → store_all ls (store_all (l ∷ []) m) ≡ store_all (l ∷ ls) m
  store_all-cons (entry name value) ls m = refl
  store_all-cons (remark text) ls m = refl

  load_lines-print :
      (ls : List Line) (m : ConfigureMap)
      → All (IsLine boost) ls
      → load_lines boost (split_on (λ c. c == b'\n') (print ls)) m ≡ store_all ls m
  unfolding load_lines
  load_lines-print [] m h = refl
  load_lines-print (l ∷ ls) m (hl, h) =
      ap (λ xs. load_lines boost xs m)
        (split_on-append (λ c. c == b'\n') (text_of l) b'\n' (print ls)
          (Lacks→avoids b'\n' (text_of l) (text-InLine l hl).1) refl)
      ∙ load_lines-print ls (load_line boost (text_of l) m) h
      ∙ ap (store_all ls) (load_line-text l m hl)
      ∙ store_all-cons l ls m

  -- The value that the first entry of a name gives.
  abbrev pub first_value : List Line → Bytes → Option Bytes
  first_value [] who = none
  first_value (entry name value ∷ ls) who =
      if bytes_eq name who then some value else first_value ls who
  first_value (remark text ∷ ls) who = first_value ls who

  abbrev or_else : Option Bytes → Option Bytes → Option Bytes
  or_else none v = v
  or_else (some w) v = some w

  find-store_all :
      (ls : List Line) (m : ConfigureMap) (who : Bytes)
      → find same_name who (store_all ls m) ≡ or_else (find same_name who m) (first_value ls who)
  find-store_all [] m who = ground arith
  find-store_all (entry name value ∷ ls) m who = ground (
    arith,
    find-store_all ls (emplace same_name name value m) who,
    find-emplace same_name who name value m,
  )
  find-store_all (remark text ∷ ls) m who = find-store_all ls m who

  -- A file, with or without the mark of its encoding in front, of lines `name=value` and lines with
  -- no `=`, where names and values are trimmed, no name begins like a comment, and there are no
  -- zero bytes: each name has the value of its first line, and no other name has a value.
  pub get-load :
      (file : Bytes) (ls : List Line) (name : Bytes)
      → skip_bom file ≡ print ls
      → All (IsLine boost) ls
      → get name (load boost file []) ≡ first_value ls name
  unfolding get load
  get-load file ls name e h =
      ap (λ text. find same_name name (load_lines boost (split_on (λ c. c == b'\n') text) []))
        (ap until_zero e ∙ until_zero-print ls h)
      ∙ ap (find same_name name) (load_lines-print ls [] h)
      ∙ find-store_all ls [] name
      ∙ unfold find in refl
