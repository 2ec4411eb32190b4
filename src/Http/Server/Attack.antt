-- ===== src/Http/Server/Attack.antt =====
-- The threads of the server end when exceptions leave the handlers of its reads.
use mathlib.Core.Path.{subst}
use suda_gureum.Base.{
  ℕ, ◌<◌, ◌≡◌, refl, sym, true, false, List, [], ◌∷◌, ◌++◌, append_assoc, All, Bytes, length, arith,
}
use suda_gureum.Http.Connection.Reads.Cases.{HasEscaped}
use suda_gureum.Http.Connection.Reads.{Execution, After, stays, upgrades, escapes, handle_read}
use suda_gureum.Http.Connection.Upgrade.{ReadsOne, lacks_header, handle_read-HasEscaped_iff}
use suda_gureum.Http.Connection.{Environment, Connection}
use suda_gureum.Http.Parser.{Callback, Info, Request}
use suda_gureum.Http.Server.{Accepted, Server, out_of_range, after_read, Event, reads, IsIdle}
use suda_gureum.Threads.Exhausted.{IsDead, Reach-IsDead, prepend}
use suda_gureum.Threads.{Service, threw, run_impl, Step, handles, Reach, here}
use suda_gureum.WebSocket.Json.{Json}

-- A connection that reads, and a request that can be sent on it: one that asks for an upgrade and lacks
-- a header which the handler looks up.
pub record Target (env : Environment) (json : Json) (a : Accepted) : Type 0 where
  pub reading : a.conn.read_pending ≡ true
  pub input : Bytes
  pub x : Execution
  pub cbs : List Callback
  pub info : Info
  pub at : ℕ
  pub request : Request
  pub reads_one : ReadsOne env json x cbs info at request a.conn
  pub lacks : lacks_header env request ≡ true

escaped : (r : After) → HasEscaped r → (d : Connection) × (r ≡ escapes d)
escaped (escapes d) h = (d, refl)
escaped (stays d) h = absurd h
escaped (upgrades d w) h = absurd h

module _ (env : Environment) (json : Json) where
  escapes_of :
      (a : Accepted) (t : Target env json a)
      → (d : Connection) × (handle_read env json false t.input t.x a.conn ≡ escapes d)
  escapes_of a t = escaped (handle_read env json false t.input t.x a.conn) (
      (handle_read-HasEscaped_iff env json t.input t.x t.cbs t.info t.at t.request a.conn
          t.reads_one).1
        (ground (arith, t.lacks)))

  -- The service after one more thread has ended.
  abbrev struck : Service Server → List Accepted → Accepted → List Accepted → Service Server
  struck v before a behind =
      run_impl (threw out_of_range (record v.state { accepted = before ++ a ∷ behind })) v

  strike :
      (v : Service Server) (before : List Accepted) (a : Accepted) (behind : List Accepted)
      → v.state.accepted ≡ before ++ a ∷ behind
      → 0 < v.running
      → v.stopped ≡ false
      → Target env json a
      → (b : Accepted) × Step (Event env json) IsIdle v (struck v before b behind)
  strike v before a behind e busy on t =
      let (d, eq) = escapes_of a t in
      (
        record a { conn = d },
        subst
            (λ r.
              Step (Event env json) IsIdle v (run_impl (after_read v.state before a behind r) v))
            eq (handles _ busy on (reads false t.input t.x before a behind e t.reading)),
      )

  -- A service that is not stopped, with as many threads as there are targets among its connections:
  -- their requests lead to a state with no thread, still not stopped, where no completion is handled
  -- ever after.
  pub targets-IsDead :
      (targets : List Accepted) (v : Service Server) (before behind : List Accepted)
      → v.state.accepted ≡ before ++ (targets ++ behind)
      → All (Target env json) targets
      → v.running ≡ length targets
      → v.stopped ≡ false
      → (u : Service Server) × Reach (Event env json) IsIdle v u
        × (u.stopped ≡ false)
        × ((w : Service Server) → Reach (Event env json) IsIdle u w → IsDead u w)
  unfolding run_impl
  targets-IsDead [] v before behind e ts count on = (v, here, on, λ w r. Reach-IsDead v w count r)
  targets-IsDead (a ∷ targets) v before behind e (t, ts) count on =
      let (b, step) = strike v before a (targets ++ behind) e (omega (arith, count)) on t in
      let (u, r, off, dead) =
        targets-IsDead targets (struck v before b (targets ++ behind)) (before ++ b ∷ []) behind
          (sym (append_assoc before (b ∷ []) (targets ++ behind))) ts (omega (arith, count)) on in
      (u, prepend step r, off, dead)
