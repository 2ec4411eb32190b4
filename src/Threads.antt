-- ===== src/Threads.antt =====
-- MtIoService.h and MtIoService.cpp: the threads that run the handlers of an `io_service`. By the
-- documentation of asio a handler runs in a thread that is in `run()`, and an exception of it leaves that
-- call; `run()` returns when the service is stopped or nothing is pending. The creation of a thread does
-- not fail here.
pub mod Exhausted
use suda_gureum.Base.Result.{Exception, system_error, runtime_error, std_exception, unknown}
use suda_gureum.Base.{
  ℕ, ◌+◌, ◌-◌, ◌<◌, ◌≡◌, ◌⊎◌, Bool, true, false, List, [], ◌∷◌, ◌++◌, Bytes, codes,
}

-- A handler returns or throws; what it changed before stays changed.
pub data Handled (S : Type 0) : Type 0 where
  finished : S → Handled S
  threw : Exception → S → Handled S

pub record Service (S : Type 0) : Type 0 where
  pub state : S
  -- the threads in `ios_.run()`
  pub running : ℕ
  pub stopped : Bool
  -- the lines on `std::cerr`
  pub errors : List Bytes

pub message : Exception → Bytes
message (system_error what) = codes "System error: " ++ what
message (runtime_error what) = codes "Runtime error: " ++ what
message (std_exception what) = codes "Exception: " ++ what
message unknown = codes "Unexpected exception caught."

module _ {S : Type 0} where
  abbrev pub new_service : S → Service S
  new_service state = record { state = state; running = 0; stopped = false; errors = [] }

  unfoldable pub run : ℕ → Service S → Service S
  run num_threads v = record v { running = v.running + num_threads }

  unfoldable pub stop : Service S → Service S
  stop v = record v { stopped = true }

  -- A handler in a thread of `runImpl`: an exception ends the thread behind a line on `std::cerr`.
  unfoldable pub run_impl : Handled S → Service S → Service S
  unfolding message
  run_impl (finished state) v = record v { state = state }
  run_impl (threw e state) v = record v {
    state = state;
    running = v.running - 1;
    errors = v.errors ++ message e ∷ [];
  }

-- The completions that asio may choose next, and whether nothing is pending.
module _ {S : Type 0} (Event : S → Handled S → Type 0) (IsIdle : S → Type 0) where
  pub data Step (v : Service S) : Service S → Type 0 where
    handles :
        (r : Handled S)
        → 0 < v.running
        → v.stopped ≡ false
        → Event v.state r
        → Step v (run_impl r v)
    leaves :
        0 < v.running
        → (v.stopped ≡ true) ⊎ IsIdle v.state
        → Step v (record v { running = v.running - 1 })
    stops : Step v (stop v)

  pub data Reach (v : Service S) : Service S → Type 0 where
    here : Reach v v
    next : {w u : Service S} → Reach v w → Step w u → Reach v u
