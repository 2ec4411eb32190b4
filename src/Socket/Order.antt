-- ===== src/Socket/Order.antt =====
-- Any number of threads that write and any order of their steps and of the completions.
use suda_gureum.Base.{
  ℕ, ◌+◌, ◌≡◌, ◌≢◌, refl, sym, ap, ◌∙◌, Bool, true, false, inl, inr, Bool-cases, List, [], ◌∷◌,
  ◌++◌, ◌==◌, Option, none, some, map, append_assoc, append-nil, if◌then◌else◌, Bytes, is_empty,
  arith,
}
use suda_gureum.Socket.{
  Entry, BufferedWriter, emplace_back, write_front, async_write, pop_front, reset_in_write,
  call_handler,
}

-- The writer, the entries queued so far, and the calls of the private `asyncWrite` that threads are
-- about to make; the handler whose frame was removed while `inWrite_` is not reset yet, and those about
-- to be called by their threads, each with whether the completion reported an error. No call of
-- `asyncWrite` follows an error.
pub record System : Type 0 where
  pub writer : BufferedWriter
  pub queued : List Entry
  pub owed : ℕ
  pub popped : Option (ℕ × Bool)
  pub taken : List (ℕ × Bool)

abbrev pub start : BufferedWriter → System
start w = record { writer = w; queued = []; owed = 0; popped = none; taken = [] }

pub data Step (s : System) : System → Type 0 where
  queues :
      (frame : Bytes) (handler : ℕ)
      → Step s (record s {
        writer = emplace_back frame handler s.writer;
        queued = s.queued ++ (frame, handler) ∷ [];
        owed = s.owed + 1;
      })
  writes : (n : ℕ) → s.owed ≡ n + 1 → Step s (record s { writer = async_write s.writer; owed = n })
  completes :
      (error : Bool) (frame : Bytes) (handler : ℕ) (rest : List Entry)
      → s.writer.in_write ≡ true
      → s.popped ≡ none
      → s.writer.buffer_to_write ≡ (frame, handler) ∷ rest
      → Step s (record s { writer = pop_front rest s.writer; popped = some (handler, error) })
  resets :
      (handler : ℕ) (error : Bool)
      → s.popped ≡ some (handler, error)
      → Step s (record s {
        writer = reset_in_write s.writer;
        popped = none;
        taken = (handler, error) ∷ s.taken;
      })
  handles :
      (before : List (ℕ × Bool)) (handler : ℕ) (error : Bool) (behind : List (ℕ × Bool))
      → s.taken ≡ before ++ (handler, error) ∷ behind
      → Step s (record s {
        writer = call_handler handler s.writer;
        taken = before ++ behind;
        owed = if error then s.owed else s.owed + 1;
      })

pub data Reach (s : System) : System → Type 0 where
  here : Reach s s
  next : {t u : System} → Reach s t → Step t u → Reach s u

-- The frame whose write is outstanding.
abbrev pub outstanding : Bool → Option (ℕ × Bool) → List Entry → List Bytes
outstanding true none (entry ∷ rest) = entry.0 ∷ []
outstanding _ _ _ = []

abbrev pub frames : List Entry → List Bytes
frames = map (λ entry. entry.0)

abbrev pub handlers : List Entry → List ℕ
handlers = map (λ entry. entry.1)

-- How often a handler is in a list.
abbrev pub count : ℕ → List ℕ → ℕ
count n [] = 0
count n (m ∷ ms) = let rest : ℕ = count n ms in if m == n then rest + 1 else rest

abbrev pub count_taken : ℕ → List (ℕ × Bool) → ℕ
count_taken n [] = 0
count_taken n ((m, error) ∷ ms) =
    let rest : ℕ = count_taken n ms in if m == n then rest + 1 else rest

abbrev pub count_popped : ℕ → Option (ℕ × Bool) → ℕ
count_popped n none = 0
count_popped n (some (m, error)) = if m == n then 1 else 0

-- The entries completed so far are the first of those queued, the rest is in the buffer. Each handler of
-- theirs was called or is about to be, as often as it is among them.
pub record InTurn (s : System) : Type 0 where
  pub completed : List Entry
  pub all : completed ++ s.writer.buffer_to_write ≡ s.queued
  pub called :
      (n : ℕ)
      → count n s.writer.handled + count_taken n s.taken + count_popped n s.popped
        ≡ count n (handlers completed)
  pub handed :
      s.writer.handed
      ≡ frames completed ++ outstanding s.writer.in_write s.popped s.writer.buffer_to_write
  pub busy : s.writer.in_write ≡ true → s.popped ≡ none → s.writer.buffer_to_write ≢ []
  pub off : s.writer.in_write ≡ false → s.popped ≡ none

map-append {ℓ κ} :
    {A : Type ℓ} {B : Type κ} (f : A → B) (xs ys : List A) → map f (xs ++ ys) ≡ map f xs ++ map f ys
map-append f [] ys = refl
map-append f (x ∷ xs) ys = ap (λ zs. f x ∷ zs) (map-append f xs ys)

outstanding-append :
    (on : Bool) (popped : Option (ℕ × Bool)) (es : List Entry) (e : Entry)
    → (on ≡ true → popped ≡ none → es ≢ [])
    → outstanding on popped (es ++ e ∷ []) ≡ outstanding on popped es
outstanding-append true none [] e h = absurd (h refl refl refl)
outstanding-append true none (x ∷ es) e h = refl
outstanding-append true (some x) es e h = refl
outstanding-append false popped es e h = refl

snoc-filled : (es : List Entry) (e : Entry) → es ++ e ∷ [] ≢ []
snoc-filled [] e = ground arith
snoc-filled (x ∷ es) e = ground arith

count-snoc :
    (n m : ℕ) (ms : List ℕ) → count n (ms ++ m ∷ []) ≡ count n ms + (if m == n then 1 else 0)
count-snoc n m [] = ground arith
count-snoc n m (x ∷ ms) = ground (arith, count-snoc n m ms)

count_taken-middle :
    (n m : ℕ) (error : Bool) (before behind : List (ℕ × Bool))
    → count_taken n (before ++ (m, error) ∷ behind)
      ≡ count_taken n (before ++ behind) + (if m == n then 1 else 0)
count_taken-middle n m error [] behind = ground arith
count_taken-middle n m error ((x, e) ∷ before) behind =
    ground (arith, count_taken-middle n m error before behind)

queues-InTurn :
    (s : System) (frame : Bytes) (handler n : ℕ)
    → InTurn s
    → InTurn (record s {
      writer = emplace_back frame handler s.writer;
      queued = s.queued ++ (frame, handler) ∷ [];
      owed = n;
    })
unfolding emplace_back
queues-InTurn s frame handler n v = record {
  completed = v.completed;
  all =
      sym (append_assoc v.completed s.writer.buffer_to_write ((frame, handler) ∷ []))
      ∙ ap (λ es. es ++ (frame, handler) ∷ []) v.all;
  called = v.called;
  handed =
      v.handed
      ∙ ap (λ fs. frames v.completed ++ fs)
          (sym (
            outstanding-append s.writer.in_write s.popped s.writer.buffer_to_write (frame, handler)
              v.busy));
  busy = λ on unpopped. snoc-filled s.writer.buffer_to_write (frame, handler);
  off = v.off;
}

write_front-InTurn :
    (s : System) (n : ℕ) (front : List Entry)
    → InTurn s
    → s.writer.in_write ≡ false
    → s.writer.buffer_to_write ≡ front
    → InTurn (record s { writer = write_front front s.writer; owed = n })
unfolding write_front
write_front-InTurn s n [] v off e = record {
  completed = v.completed;
  all = v.all;
  called = v.called;
  handed = ground (arith, v.handed, off, e);
  busy = ground arith;
  off = λ _. v.off off;
}
write_front-InTurn s n ((frame, handler) ∷ rest) v off e = elim (Bool-cases (is_empty frame)) [
  | inl blank ↦ record {
    completed = v.completed;
    all = ground (arith, v.all);
    called = λ m. ground (arith, v.called m);
    handed = ground (arith, v.handed, off, e);
    busy = ground arith;
    off = λ _. v.off off;
  }
  | inr filled ↦ record {
    completed = v.completed;
    all = ground (arith, v.all);
    called = λ m. ground (arith, v.called m);
    handed = ground (arith, v.handed, off, e, v.off off, append-nil (frames v.completed));
    busy = ground arith;
    off = λ _. v.off off;
  }
]

async_write-InTurn :
    (s : System) (n : ℕ) → InTurn s → InTurn (record s { writer = async_write s.writer; owed = n })
unfolding async_write
async_write-InTurn s n v = go s.writer.in_write refl
  where
    go :
        (on : Bool)
        → s.writer.in_write ≡ on
        → InTurn (record s {
          writer = if on then s.writer else write_front s.writer.buffer_to_write s.writer;
          owed = n;
        })
    go true e = record {
      completed = v.completed;
      all = v.all;
      called = v.called;
      handed = v.handed;
      busy = v.busy;
      off = v.off;
    }
    go false e = write_front-InTurn s n s.writer.buffer_to_write v e refl

completes-InTurn :
    (s : System) (error : Bool) (frame : Bytes) (handler : ℕ) (rest : List Entry)
    → s.writer.in_write ≡ true
    → s.popped ≡ none
    → s.writer.buffer_to_write ≡ (frame, handler) ∷ rest
    → InTurn s
    → InTurn (record s { writer = pop_front rest s.writer; popped = some (handler, error) })
completes-InTurn s error frame handler rest on unpopped e v = record {
  completed = v.completed ++ (frame, handler) ∷ [];
  all = ground (arith, v.all, e, append_assoc v.completed ((frame, handler) ∷ []) rest);
  called = λ n. ground (
    arith,
    v.called n,
    unpopped,
    map-append (λ entry. entry.1) v.completed ((frame, handler) ∷ []),
    count-snoc n handler (handlers v.completed),
  );
  handed = ground (
    arith,
    v.handed,
    on,
    unpopped,
    e,
    map-append (λ entry. entry.0) v.completed ((frame, handler) ∷ []),
    append-nil (frames v.completed ++ frame ∷ []),
  );
  busy = ground arith;
  off = λ f. absurd (ground (arith, f, on));
}

resets-InTurn :
    (s : System) (handler : ℕ) (error : Bool)
    → s.popped ≡ some (handler, error)
    → InTurn s
    → InTurn (record s {
      writer = reset_in_write s.writer;
      popped = none;
      taken = (handler, error) ∷ s.taken;
    })
resets-InTurn s handler error e v = record {
  completed = v.completed;
  all = v.all;
  called = λ n. ground (arith, v.called n, e);
  handed = v.handed ∙ ap (λ o. frames v.completed ++ o) (ground (arith, e));
  busy = ground arith;
  off = λ _. refl;
}

handles-InTurn :
    (s : System) (before : List (ℕ × Bool)) (handler : ℕ) (error : Bool) (behind : List (ℕ × Bool))
    (n : ℕ)
    → s.taken ≡ before ++ (handler, error) ∷ behind
    → InTurn s
    → InTurn
        (record s { writer = call_handler handler s.writer; taken = before ++ behind; owed = n })
handles-InTurn s before handler error behind n e v = record {
  completed = v.completed;
  all = v.all;
  called = λ m. omega (
    arith,
    v.called m,
    ap (count_taken m) e,
    count_taken-middle m handler error before behind,
    count-snoc m handler s.writer.handled,
  );
  handed = v.handed;
  busy = v.busy;
  off = v.off;
}

Step-InTurn : {s t : System} → Step s t → InTurn s → InTurn t
Step-InTurn {s} (queues frame handler) v = queues-InTurn s frame handler (s.owed + 1) v
Step-InTurn {s} (writes n e) v = async_write-InTurn s n v
Step-InTurn {s} (completes error frame handler rest on unpopped e) v =
    completes-InTurn s error frame handler rest on unpopped e v
Step-InTurn {s} (resets handler error e) v = resets-InTurn s handler error e v
Step-InTurn {s} (handles before handler error behind e) v =
    handles-InTurn s before handler error behind (if error then s.owed else s.owed + 1) e v

-- However any number of threads that queue frames, their calls of the private asyncWrite, the
-- completions and the three steps of handleWrite (the frame is removed, inWrite_ is reset, the
-- handler is called) are ordered: the frames are handed to the socket in the order in which they
-- were queued, one at a time; and each handler has been called, or is about to be by its thread,
-- exactly as often as it is among the entries completed, in whatever order the threads come to it.
pub Reach-InTurn : {s t : System} → InTurn s → Reach s t → InTurn t
Reach-InTurn v here = v
Reach-InTurn v (next r s) = Step-InTurn s (Reach-InTurn v r)
