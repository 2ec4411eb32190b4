-- ===== src/Socket.antt =====
-- Socket.h: the write queue of `BufferedWriterSocket`. A frame stays at the front of the queue until
-- its write completes. Handlers are numbered, and what was handed to the wrapped socket and which
-- handlers were called is kept in order. The critical sections and the accesses of `inWrite_` are atomic
-- steps.
pub mod Order
pub mod Blocked
pub mod Given
pub mod Layers
pub mod Tests
use suda_gureum.Base.{ℕ, Bool, true, false, List, [], ◌∷◌, ◌++◌, if◌then◌else◌, Bytes, is_empty}

-- A frame and the number of its handler.
abbrev pub Entry : Type 0
Entry = Bytes × ℕ

pub record BufferedWriter : Type 0 where
  pub buffer_to_write : List Entry
  pub in_write : Bool
  -- what `socket_.asyncWrite` was given, and the handlers called
  pub handed : List Bytes
  pub handled : List ℕ

abbrev pub initial : BufferedWriter
initial = record { buffer_to_write = []; in_write = false; handed = []; handled = [] }

-- The part of the public `asyncWrite` under `bufferWriteLock_`.
unfoldable pub emplace_back : Bytes → ℕ → BufferedWriter → BufferedWriter
emplace_back frame handler w = record w {
  buffer_to_write = w.buffer_to_write ++ (frame, handler) ∷ [];
}

-- The private `asyncWrite` when the exchange found `inWrite_` unset.
unfoldable pub write_front : List Entry → BufferedWriter → BufferedWriter
write_front [] w = record w { in_write = false }
write_front ((frame, handler) ∷ rest) w =
    if is_empty frame
    then record w { in_write = false }
    else record w { in_write = true; handed = w.handed ++ frame ∷ [] }

unfoldable pub async_write : BufferedWriter → BufferedWriter
unfolding write_front
async_write w = if w.in_write then w else write_front w.buffer_to_write w

-- The three steps of `handleWrite`: the frame written is removed under `bufferWriteLock_`, then
-- `inWrite_` is reset, and then the handler is called, under no lock.
abbrev pub pop_front : List Entry → BufferedWriter → BufferedWriter
pop_front rest w = record w { buffer_to_write = rest }

abbrev pub reset_in_write : BufferedWriter → BufferedWriter
reset_in_write w = record w { in_write = false }

abbrev pub call_handler : ℕ → BufferedWriter → BufferedWriter
call_handler handler w = record w { handled = w.handled ++ handler ∷ [] }

-- One after the other, where no other thread comes between; the queue has the frame written in front.
unfoldable pub handle_front : List Entry → BufferedWriter → BufferedWriter
handle_front [] w = w
handle_front ((frame, handler) ∷ rest) w = call_handler handler (reset_in_write (pop_front rest w))

unfoldable pub handle_write : BufferedWriter → BufferedWriter
unfolding handle_front
handle_write w = handle_front w.buffer_to_write w

-- All of `handleWrite`: no write follows an error.
abbrev pub finish_write : Bool → BufferedWriter → BufferedWriter
finish_write failed w = if failed then handle_write w else async_write (handle_write w)
