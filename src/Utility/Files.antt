-- ===== src/Utility/Files.antt =====
-- `readFile` and `readFileIntoVector` (Utility.h, Utility.cpp). A file that can be opened is the string of
-- its bytes; a read of the stream gives what is left, up to the size of the chunk, and the stream is
-- good after it exactly if the chunk is full.
use suda_gureum.Base.{
  ℕ, zero, suc, ◌+◌, ◌<◌, ◌≤◌, ◌≡◌, refl, sym, ap, ◌∙◌, Bool, true, false, ◌||◌, inl, inr,
  Bool-cases, List, [], ◌∷◌, ◌++◌, append_assoc, append-nil, Option, none, some, leb, ltb,
  if◌then◌else◌, length, take, drop, Bytes, arith,
}

pub record Stream : Type 0 where
  pub rest : Bytes
  pub good : Bool

-- `ifp.read`: the bytes counted by `gcount`, and the stream.
abbrev pub read : ℕ → Stream → Bytes × Stream
read size s =
    if s.good
    then (take size s.rest, record { rest = drop size s.rest; good = leb size (length s.rest) })
    else ([], s)

-- The loop, in rounds; `none` is a loop that goes on.
unfoldable pub read_chunks : ℕ → ℕ → Stream → Bytes → Option Bytes
read_chunks zero size s bytes = none
read_chunks (suc fuel) size s bytes =
    let (chunk, t) = read size s in
    let rest = read_chunks fuel size t (bytes ++ chunk) in
    if t.good || ltb 0 (length chunk) then rest else some bytes

-- `readFile` of what the path opens, with chunks of `BUFSIZ` bytes; `none` of the file is the
-- exception.
unfoldable pub read_file : ℕ → ℕ → Bytes → Option Bytes
unfolding read_chunks
read_file fuel buf_size bytes = read_chunks fuel buf_size (record { rest = bytes; good = true }) []

append_pieces {ℓ} : {A : Type ℓ} (n : ℕ) (xs : List A) → take n xs ++ drop n xs ≡ xs
append_pieces zero xs = refl
append_pieces (suc n) [] = refl
append_pieces (suc n) (x ∷ xs) = ap (λ ys. x ∷ ys) (append_pieces n xs)

length_of_pieces :
    (n : ℕ) (xs : Bytes)
    → n ≤ length xs
    → (length (take n xs) ≡ n) × (length (drop n xs) + n ≡ length xs)
length_of_pieces zero xs h = omega arith
length_of_pieces (suc n) [] h = absurd (omega arith)
length_of_pieces (suc n) (x ∷ xs) h = omega (arith, length_of_pieces n xs)

-- A file shorter than a chunk is read whole.
take_whole {ℓ} : {A : Type ℓ} (n : ℕ) (xs : List A) → length xs < n → take n xs ≡ xs
take_whole zero xs h = absurd (omega arith)
take_whole (suc n) [] h = refl
take_whole (suc n) (x ∷ xs) h = ap (λ ys. x ∷ ys) (take_whole n xs (omega arith))

read_chunks-bad :
    (fuel size : ℕ) (rest bytes : Bytes)
    → read_chunks (suc fuel) size (record { rest = rest; good = false }) bytes ≡ some bytes
unfolding read_chunks
read_chunks-bad fuel size rest bytes = refl

-- A chunk that is not full is the last one.
read_chunks-short :
    (fuel size : ℕ) (rest bytes : Bytes)
    → length rest < size
    → 1 < fuel
    → read_chunks fuel size (record { rest = rest; good = true }) bytes ≡ some (bytes ++ rest)
unfolding read_chunks
read_chunks-short zero size rest bytes h enough = absurd (omega arith)
read_chunks-short (suc zero) size rest bytes h enough = absurd (omega arith)
read_chunks-short (suc (suc fuel)) size rest bytes h enough =
    let short : leb size (length rest) ≡ false = ground arith in
    rw (take_whole size rest h, short) (go rest)
  where
    go :
        (xs : Bytes)
        → (if ltb 0 (length xs) then some (bytes ++ xs) else some bytes) ≡ some (bytes ++ xs)
    go [] = ap some (sym (append-nil bytes))
    go (x ∷ xs) = ground arith

read_chunks_lem :
    (fuel size : ℕ) (rest bytes : Bytes)
    → 0 < size
    → length rest + 1 < fuel
    → read_chunks fuel size (record { rest = rest; good = true }) bytes ≡ some (bytes ++ rest)
unfolding read_chunks
read_chunks_lem zero size rest bytes h enough = absurd (omega arith)
read_chunks_lem (suc fuel) size rest bytes h enough = elim (Bool-cases (leb size (length rest))) [
  | inl full ↦ rw full (
      read_chunks_lem fuel size (drop size rest) (bytes ++ take size rest) h
        (ground (arith, full, length_of_pieces size rest))
      ∙ ap some (
          append_assoc bytes (take size rest) (drop size rest)
          ∙ ap (λ xs. bytes ++ xs) (append_pieces size rest)))
  | inr short ↦ read_chunks-short (suc fuel) size rest bytes (ground arith) (omega arith)
]

-- With chunks of one byte at least, two rounds more than there are bytes end the loop, and all of the
-- bytes are read.
pub read_file-some :
    (fuel buf_size : ℕ) (bytes : Bytes)
    → 0 < buf_size
    → length bytes + 1 < fuel
    → read_file fuel buf_size bytes ≡ some bytes
unfolding read_file
read_file-some fuel buf_size bytes h enough = read_chunks_lem fuel buf_size bytes [] h enough
