-- ===== src/Http/Server/Serving/Staffed.antt =====
-- The server in the threads of its service, in any order of the completions.
use suda_gureum.Base.{ℕ, ◌+◌, ◌≡◌, Bool, false, length}
use suda_gureum.Http.Server.{Server}
use suda_gureum.Threads.{Service}
use suda_gureum.Http.Server.Serving.{Serving}
use suda_gureum.WebSocket.Json.{Json}

-- The threads in `run()`, and those that an exception ended, while the service is not stopped.
record Staffed (ssl : Bool) (max threads : ℕ) (v : Service Server) : Type 0 where
  serving : Serving ssl max v.state
  staff : v.stopped ≡ false → v.running + length v.errors ≡ threads
