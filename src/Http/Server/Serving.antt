-- ===== src/Http/Server/Serving.antt =====
-- What holds of the server whatever its clients do, and what a completion on one connection keeps.
pub mod Steps
pub mod Staffed
use mathlib.Core.Path.{subst}
use suda_gureum.Base.{
  ℕ, ◌+◌, ◌≡◌, ◌≢◌, refl, sym, ap, ◌∙◌, Bool, true, false, not, inl, inr, Bool-cases, List, [], ◌∷◌,
  ◌++◌, Option, none, some, if◌then◌else◌, All, All-append, Bytes, ltb, drop, length, length-append,
  arith,
}
use suda_gureum.Http.Connection.Reads.{
  Execution, Ran, returned, threw as ran_threw, After, stays, upgrades, escapes, run, parse_result,
  after_parse, after_run, handle_read,
}
use suda_gureum.Http.Connection.{Environment, Connection, new_connection, handle_handshake}
use suda_gureum.Http.Connection.Reads.Cases.{
  handle_read-off, handle_read-failed, handle_read-parse, parsing,
}
use suda_gureum.Http.Server.{
  Accepted, Server, made, accept_next, accept_next_ssl, start_ssl, start_read, accepting, read_next,
  handle_accept, shaken, started, handle_accept_ssl, handle_accepted, after_read, shook, wrote,
  timed_out, Event, accepts, shakes, reads, writes, times_out, goes_on, IsIdle, listening,
}
use suda_gureum.Threads.{Handled, finished, threw, Service}
use suda_gureum.WebSocket.Connection.Closing.{
  Holds, HandlerInv, Inv, NotReading, handle_read-Inv, Step-Inv,
}
use suda_gureum.WebSocket.Connection.{Running, running, taken_over}
use suda_gureum.WebSocket.Json.{Json}

-- On a server with SSL nothing is read from a connection or sent on it before its handshake is done:
-- until then it is as it was made.
pub record Guarded (ssl : Bool) (max : ℕ) (a : Accepted) : Type 0 where
  pub kind : a.ssl ≡ ssl
  pub shakes : a.handshaking ≡ true → a.secured ≡ false
  pub secret : ssl ≡ true → a.secured ≡ false → a.conn ≡ new_connection max

pub record Serving (ssl : Bool) (max : ℕ) (s : Server) : Type 0 where
  pub kind : s.ssl ≡ ssl
  pub count : s.keep_alive_max_count ≡ max
  pub accepts : s.accept_pending ≡ true
  pub next : s.next_conn ≡ some (made ssl max)
  pub connections : All (Guarded ssl max) s.accepted
  pub web_sockets : All (Holds Inv) s.web_sockets

pub All-middle {ℓ κ} :
    {A : Type ℓ} (P : A → Type κ) (before : List A) (x : A) (behind : List A)
    → All P (before ++ x ∷ behind)
    → P x × ((y : A) → P y → All P (before ++ y ∷ behind))
All-middle P [] x behind (p, ps) = (p, λ y q. (q, ps))
All-middle P (z ∷ before) x behind (p, ps) =
    let (q, put) = All-middle P before x behind ps in (q, λ y r. (p, put y r))

-- A WebSocket connection that takes over begins within the invariant of the closing.
abbrev pub TakesOver : After → Type 0
TakesOver (upgrades c web_socket) = Holds Inv web_socket
TakesOver _ = Unit

TakesOver-if : (b : Bool) (x y : After) → TakesOver x → TakesOver y → TakesOver (if b then x else y)
TakesOver-if true x y hx hy = hx
TakesOver-if false x y hx hy = hy

taken_over-NotReading : NotReading taken_over
taken_over-NotReading =
    (record { closes = refl; answered = ground arith; ends = ground arith }, refl)

module _ (env : Environment) (json : Json) where
  after_parse-TakesOver :
      (r : Bool × ℕ) (input : Bytes) (c : Connection) → TakesOver (after_parse env json r input c)
  unfolding after_parse
  after_parse-TakesOver (false, at) input c = tt
  after_parse-TakesOver (true, at) input c =
      TakesOver-if (ltb 0 at) _ _
        (TakesOver-if c.upgrade_web_socket _ _
          (handle_read-Inv json false (drop at input) taken_over taken_over-NotReading) tt)
        (TakesOver-if c.continue_read _ _ tt tt)

  after_run-TakesOver : (input : Bytes) (ran : Ran) → TakesOver (after_run env json input ran)
  after_run-TakesOver input (ran_threw c) = tt
  after_run-TakesOver input (returned upgrade parsed c) =
      after_parse-TakesOver (parse_result upgrade parsed (length input)) input c

  pub handle_read-TakesOver :
      (failed : Bool) (input : Bytes) (x : Execution) (c : Connection)
      → TakesOver (handle_read env json failed input x c)
  handle_read-TakesOver failed input x c = elim (Bool-cases c.continue_read) [
    | inr off ↦ subst TakesOver (sym (handle_read-off env json failed input x c off)) tt
    | inl on ↦ go failed on
  ]
    where
      go :
          (failed : Bool)
          → c.continue_read ≡ true
          → TakesOver (handle_read env json failed input x c)
      go true on = subst TakesOver (sym (handle_read-failed env json input x c on)) tt
      go false on =
          subst TakesOver (sym (handle_read-parse env json input x c on))
            (after_run-TakesOver input (run env x.made x.upgrade x.parsed (parsing c)))

-- The state that a handler leaves.
abbrev pub left : Handled Server → Server
left (finished s) = s
left (threw e s) = s

module _ (ssl : Bool) (max : ℕ) where
  -- An operation completes only on a connection that is not waiting for its handshake.
  pub used-Guarded :
      (a : Accepted) (d : Connection)
      → Guarded ssl max a
      → a.conn ≢ new_connection max
      → Guarded ssl max (record a { conn = d })
  used-Guarded a d v used = record {
    kind = v.kind;
    shakes = v.shakes;
    secret = λ is_ssl bare. absurd (used (v.secret is_ssl bare));
  }

  pub shook-Guarded :
      (failed : Bool) (a : Accepted)
      → Guarded ssl max a
      → a.handshaking ≡ true
      → Guarded ssl max (shook failed a)
  unfolding handle_handshake
  shook-Guarded true a v busy = record {
    kind = v.kind;
    shakes = ground arith;
    secret = λ is_ssl bare. v.secret is_ssl (v.shakes busy);
  }
  shook-Guarded false a v busy = record {
    kind = v.kind;
    shakes = ground arith;
    secret = ground arith;
  }

  pub with_connection-Serving :
      (s : Server) (before : List Accepted) (a b : Accepted) (behind : List Accepted)
      → Serving ssl max s
      → s.accepted ≡ before ++ a ∷ behind
      → (Guarded ssl max a → Guarded ssl max b)
      → Serving ssl max (record s { accepted = before ++ b ∷ behind })
  with_connection-Serving s before a b behind v e keep =
      let (g, put) =
        All-middle (Guarded ssl max) before a behind
          (subst (All (Guarded ssl max)) e v.connections) in
      record {
        kind = v.kind;
        count = v.count;
        accepts = v.accepts;
        next = v.next;
        connections = put b (keep g);
        web_sockets = v.web_sockets;
      }

  pub after_read-Serving :
      (s : Server) (before : List Accepted) (a : Accepted) (behind : List Accepted) (r : After)
      → Serving ssl max s
      → s.accepted ≡ before ++ a ∷ behind
      → a.conn ≢ new_connection max
      → TakesOver r
      → Serving ssl max (left (after_read s before a behind r))
  after_read-Serving s before a behind (stays d) v e used h =
      with_connection-Serving s before a (record a { conn = d }) behind v e
        (λ g. used-Guarded a d g used)
  after_read-Serving s before a behind (escapes d) v e used h =
      with_connection-Serving s before a (record a { conn = d }) behind v e
        (λ g. used-Guarded a d g used)
  after_read-Serving s before a behind (upgrades d w) v e used h =
      let u =
        with_connection-Serving s before a (record a { conn = d }) behind v e
          (λ g. used-Guarded a d g used) in
      record {
        kind = u.kind;
        count = u.count;
        accepts = u.accepts;
        next = u.next;
        connections = u.connections;
        web_sockets = All-append (Holds Inv) s.web_sockets (w ∷ []) v.web_sockets (h, tt);
      }
