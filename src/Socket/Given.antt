-- ===== src/Socket/Given.antt =====
-- The number of frames that a writer was given so far.
use suda_gureum.Base.{ℕ, ◌+◌, ◌≡◌, refl, List, [], ◌∷◌, Bool, Bytes, length, length-append, arith}
use suda_gureum.Socket.{
  Entry, BufferedWriter, emplace_back, write_front, async_write, handle_front, handle_write,
  finish_write,
}

-- Those whose write is completed, and those in the queue.
abbrev pub given : BufferedWriter → ℕ
given w = length w.handled + length w.buffer_to_write

pub async_write-given : (w : BufferedWriter) → given (async_write w) ≡ given w
unfolding async_write write_front
async_write-given w = ground arith

pub emplace_back-given :
    (frame : Bytes) (handler : ℕ) (w : BufferedWriter)
    → given (emplace_back frame handler w) ≡ given w + 1
unfolding emplace_back
emplace_back-given frame handler w =
    omega (arith, length-append w.buffer_to_write ((frame, handler) ∷ []))

handle_front-given :
    (es : List Entry) (w : BufferedWriter)
    → w.buffer_to_write ≡ es
    → given (handle_front es w) ≡ given w
unfolding handle_front
handle_front-given [] w h = refl
handle_front-given (e ∷ es) w h = ground (arith, h, length-append w.handled (e.1 ∷ []))

pub finish_write-given :
    (failed : Bool) (w : BufferedWriter) → given (finish_write failed w) ≡ given w
unfolding handle_write
finish_write-given failed w = ground (
  arith,
  handle_front-given w.buffer_to_write w refl,
  async_write-given (handle_front w.buffer_to_write w),
)
