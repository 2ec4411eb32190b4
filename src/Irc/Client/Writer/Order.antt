-- ===== src/Irc/Client/Writer/Order.antt =====
-- Any number of threads that send and any order of their steps and of the completions.
use suda_gureum.Base.{
  ℕ, ◌+◌, ◌≡◌, refl, sym, ◌∙◌, Bool, true, false, List, [], ◌∷◌, ◌++◌, append_assoc, if◌then◌else◌,
  Bool-cases, inl, inr, length, length-append, Bytes, is_empty, All, All-append, arith,
}
use suda_gureum.Irc.Client.State.{Writer}
use suda_gureum.Irc.Client.Writer.{push, write_front, write, completed}
use suda_gureum.Irc.Message.{Message, encode_message, wire}

-- The writer, what was pushed so far, the calls of `write` that threads are about to make, the
-- completions so far, and whether one reported an error (after which `write` is not called).
pub record System : Type 0 where
  pub writer : Writer
  pub pushed : List Bytes
  pub owed : ℕ
  pub completions : ℕ
  pub failed : Bool

abbrev pub start : Writer → System
start w = record { writer = w; pushed = []; owed = 0; completions = 0; failed = false }

pub data Step (s : System) : System → Type 0 where
  pushes :
      (m : Message)
      → Step s (record s {
        writer = push (wire m) s.writer;
        pushed = s.pushed ++ wire m ∷ [];
        owed = s.owed + 1;
      })
  writes : (n : ℕ) → s.owed ≡ n + 1 → Step s (record s { writer = write s.writer; owed = n })
  completes :
      (error : Bool)
      → s.writer.in_write ≡ true
      → Step s (record s {
        writer = completed s.writer;
        owed = if error then s.owed else s.owed + 1;
        completions = s.completions + 1;
        failed = if error then true else s.failed;
      })

pub data Reach (s : System) : System → Type 0 where
  here : Reach s s
  next : {t u : System} → Reach s t → Step t u → Reach s u

-- Whatever was pushed is handed to the socket in that order; one write is outstanding exactly
-- while `in_write` is set; and a filled buffer has a write or a call of `write` ahead of it.
pub record Orderly (s : System) : Type 0 where
  pub fifo : s.writer.handed ++ s.writer.buffer_to_write ≡ s.pushed
  pub one_write : length s.writer.handed ≡ s.completions + (if s.writer.in_write then 1 else 0)
  pub woken :
      s.failed ≡ false → s.owed ≡ 0 → s.writer.in_write ≡ false → s.writer.buffer_to_write ≡ []
  pub filled : All (λ bytes. is_empty bytes ≡ false) s.writer.buffer_to_write

is_empty-append : (a b : Bytes) (c : ℕ) → is_empty (a ++ c ∷ b) ≡ false
is_empty-append [] b c = refl
is_empty-append (x ∷ a) b c = refl

write_front-Orderly :
    (s : System) (n : ℕ) (front : List Bytes)
    → Orderly s
    → s.writer.in_write ≡ false
    → s.writer.buffer_to_write ≡ front
    → Orderly (record s { writer = write_front front s.writer; owed = n })
unfolding write_front
write_front-Orderly s n [] v off e = ground arith
write_front-Orderly s n (message ∷ rest) v off e = ground (
  arith,
  append_assoc s.writer.handed (message ∷ []) rest,
  length-append s.writer.handed (message ∷ []),
)

write-Orderly :
    (s : System) (n : ℕ) → Orderly s → Orderly (record s { writer = write s.writer; owed = n })
unfolding write
write-Orderly s n v = elim (Bool-cases s.writer.in_write) [
  | inl on ↦ ground arith
  | inr off ↦ ground (arith, write_front-Orderly s n s.writer.buffer_to_write v off refl)
]

Step-Orderly : {s t : System} → Step s t → Orderly s → Orderly t
unfolding push completed
Step-Orderly {s} (pushes m) v = record {
  fifo =
      ground (arith, v.fifo, append_assoc s.writer.handed s.writer.buffer_to_write (wire m ∷ []));
  one_write = v.one_write;
  woken = λ ok none. absurd (omega arith);
  filled =
      All-append (λ bytes. is_empty bytes ≡ false) s.writer.buffer_to_write (wire m ∷ []) v.filled
        (is_empty-append (encode_message m) (b'\n' ∷ []) b'\r', tt);
}
Step-Orderly {s} (writes n e) v = write-Orderly s n v
Step-Orderly {s} (completes error e) v = ground arith

-- However the threads' steps and the completions are ordered: the strings pushed are handed to the
-- socket in the order of their pushes, with at most one write outstanding, and no string is left
-- behind without a write or a call of `write` to come while no write fails.
pub Reach-Orderly : {s t : System} → Orderly s → Reach s t → Orderly t
Reach-Orderly v here = v
Reach-Orderly v (next r s) = Step-Orderly s (Reach-Orderly v r)

-- What was handed to the socket and what is still in the buffer.
abbrev pub queued : Writer → List Bytes
queued w = w.handed ++ w.buffer_to_write

abbrev pub Filled : Writer → Type 0
Filled w = All (λ bytes. is_empty bytes ≡ false) w.buffer_to_write

write_front-queued :
    (w : Writer) (front : List Bytes)
    → w.buffer_to_write ≡ front
    → Filled w
    → (queued (write_front front w) ≡ queued w) × Filled (write_front front w)
unfolding write_front
write_front-queued w [] e h = ground arith
write_front-queued w (message ∷ rest) e h =
    ground (arith, append_assoc w.handed (message ∷ []) rest)

write-queued : (w : Writer) → Filled w → (queued (write w) ≡ queued w) × Filled (write w)
unfolding write
write-queued w h = elim (Bool-cases w.in_write) [
  | inl on ↦ ground arith
  | inr off ↦ ground (arith, write_front-queued w w.buffer_to_write refl h)
]

push-Filled : (m : Message) (w : Writer) → Filled w → Filled (push (wire m) w)
unfolding push
push-Filled m w h =
    All-append (λ bytes. is_empty bytes ≡ false) w.buffer_to_write (wire m ∷ []) h
      (is_empty-append (encode_message m) (b'\n' ∷ []) b'\r', tt)

-- A message sent is behind everything sent before.
pub write-push :
    (m : Message) (w : Writer)
    → Filled w
    → (queued (write (push (wire m) w)) ≡ queued w ++ wire m ∷ [])
      × Filled (write (push (wire m) w))
unfolding push
write-push m w h =
    let (same, filled) = write-queued (push (wire m) w) (push-Filled m w h) in
    (same ∙ sym (append_assoc w.handed w.buffer_to_write (wire m ∷ [])), filled)
