-- ===== src/Threads/Exhausted.antt =====
-- A service whose threads have ended.
use suda_gureum.Base.{◌≡◌, refl, arith}
use suda_gureum.Threads.{Handled, Service, stop, Step, handles, leaves, stops, Reach, here, next}

-- No thread, and the state of another service.
pub record IsDead {S : Type 0} (v u : Service S) : Type 0 where
  pub state : u.state ≡ v.state
  pub running : u.running ≡ 0

module _ {S : Type 0} {Event : S → Handled S → Type 0} {IsIdle : S → Type 0} where
  Step-IsDead : (v w u : Service S) → IsDead v w → Step Event IsIdle w u → IsDead v u
  unfolding stop
  Step-IsDead v w u d (handles r busy on event) = absurd (omega (arith, d.running))
  Step-IsDead v w u d (leaves busy why) = absurd (omega (arith, d.running))
  Step-IsDead v w u d stops = record { state = d.state; running = d.running }

  -- With no thread left nothing is handled any more.
  pub Reach-IsDead : (v u : Service S) → v.running ≡ 0 → Reach Event IsIdle v u → IsDead v u
  Reach-IsDead v u h here = record { state = refl; running = h }
  Reach-IsDead v u h (next {w} r s) = Step-IsDead v w u (Reach-IsDead v w h r) s

  pub prepend :
      {v w u : Service S} → Step Event IsIdle v w → Reach Event IsIdle w u → Reach Event IsIdle v u
  prepend s here = next here s
  prepend s (next r t) = next (prepend s r) t
