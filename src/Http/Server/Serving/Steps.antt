-- ===== src/Http/Server/Serving/Steps.antt =====
-- The accept loop, and every completion.
use mathlib.Core.Path.{subst}
use suda_gureum.Base.{
  ℕ, ◌≡◌, ◌≢◌, refl, sym, ap, ◌∙◌, Bool, true, false, [], ◌∷◌, some, if◌then◌else◌, All, All-append,
  arith,
}
use suda_gureum.Http.Connection.Reads.{handle_read}
use suda_gureum.Http.Connection.{Environment, Connection, new_connection}
use suda_gureum.Http.Server.{
  Accepted, Server, made, accept_next, accept_next_ssl, start_ssl, start_read, accepting, read_next,
  handle_accept, started, handle_accept_ssl, handle_accepted, shook, wrote, timed_out, Event,
  accepts, shakes, reads, writes, times_out, goes_on, listening,
}
use suda_gureum.Threads.{Handled}
use suda_gureum.Http.Server.Serving.{
  Guarded, Serving, All-middle, left, used-Guarded, shook-Guarded, with_connection-Serving,
  after_read-Serving, handle_read-TakesOver,
}
use suda_gureum.WebSocket.Connection.Closing.{Holds, Inv, Step-Inv}
use suda_gureum.WebSocket.Connection.{running}
use suda_gureum.WebSocket.Json.{Json}

-- While the accept that has just completed is not started again.
record Between (ssl : Bool) (max : ℕ) (s : Server) : Type 0 where
  kind : s.ssl ≡ ssl
  count : s.keep_alive_max_count ≡ max
  connections : All (Guarded ssl max) s.accepted
  web_sockets : All (Holds Inv) s.web_sockets

module _ (max : ℕ) where
  accept_next-Serving : (s : Server) → Between false max s → Serving false max (accept_next s)
  unfolding accept_next
  accept_next-Serving s v = record {
    kind = v.kind;
    count = v.count;
    accepts = refl;
    next = ap (λ m. some (made false m)) v.count;
    connections = v.connections;
    web_sockets = v.web_sockets;
  }

  accept_next_ssl-Serving : (s : Server) → Between true max s → Serving true max (accept_next_ssl s)
  unfolding accept_next_ssl
  accept_next_ssl-Serving s v = record {
    kind = v.kind;
    count = v.count;
    accepts = refl;
    next = ap (λ m. some (made true m)) v.count;
    connections = v.connections;
    web_sockets = v.web_sockets;
  }

  accepting-Between :
      (ssl : Bool) (a : Accepted) (s : Server)
      → Between ssl max s
      → Guarded ssl max a
      → Between ssl max (accepting a s)
  accepting-Between ssl a s v g = record {
    kind = v.kind;
    count = v.count;
    connections = All-append (Guarded ssl max) s.accepted (a ∷ []) v.connections (g, tt);
    web_sockets = v.web_sockets;
  }

  completed-Between :
      (ssl : Bool) (s : Server)
      → Serving ssl max s
      → Between ssl max (record s { accept_pending = false })
  completed-Between ssl s v = record {
    kind = v.kind;
    count = v.count;
    connections = v.connections;
    web_sockets = v.web_sockets;
  }

  handle_accept-Serving :
      (failed : Bool) (s : Server)
      → s.next_conn ≡ some (made false max)
      → Between false max s
      → Serving false max (left (handle_accept failed s))
  unfolding handle_accept
  handle_accept-Serving true s e v = accept_next-Serving s v
  handle_accept-Serving false s e v =
      subst (λ t. Serving false max (accept_next t)) (sym (ap (λ o. read_next o s) e))
        (accept_next-Serving (accepting (start_read (made false max)) s) (
          accepting-Between false (start_read (made false max)) s v
            (record { kind = refl; shakes = ground arith; secret = ground arith })))

  handle_accept_ssl-Serving :
      (failed : Bool) (s : Server)
      → s.next_conn ≡ some (made true max)
      → Between true max s
      → Serving true max (left (handle_accept_ssl failed s))
  unfolding handle_accept_ssl start_ssl
  handle_accept_ssl-Serving true s e v = accept_next_ssl-Serving s v
  handle_accept_ssl-Serving false s e v =
      subst (λ o. Serving true max (left (started o s))) (sym e)
        (accept_next_ssl-Serving (accepting (record (made true max) { handshaking = true }) s) (
          accepting-Between true (record (made true max) { handshaking = true }) s v
            (record { kind = refl; shakes = λ h. refl; secret = λ h k. refl })))

  handle_accepted-Serving :
      (ssl failed : Bool) (s : Server)
      → Serving ssl max s
      → Serving ssl max (left (handle_accepted failed (record s { accept_pending = false })))
  handle_accepted-Serving true failed s v =
      subst
        (λ b. Serving true max (
          left (
            if b
            then handle_accept_ssl failed (record s { accept_pending = false })
            else handle_accept failed (record s { accept_pending = false }))))
        (sym v.kind)
        (handle_accept_ssl-Serving failed (record s { accept_pending = false }) v.next
          (completed-Between true s v))
  handle_accepted-Serving false failed s v =
      subst
        (λ b. Serving false max (
          left (
            if b
            then handle_accept_ssl failed (record s { accept_pending = false })
            else handle_accept failed (record s { accept_pending = false }))))
        (sym v.kind)
        (handle_accept-Serving failed (record s { accept_pending = false }) v.next
          (completed-Between false s v))

module _ (env : Environment) (json : Json) (ssl : Bool) (max : ℕ) where
  -- A new connection has no operation pending.
  pending-used :
      (field : Connection → Bool) (c : Connection)
      → field (new_connection max) ≡ false
      → field c ≡ true
      → c ≢ new_connection max
  pending-used field c off on e = cc (sym on ∙ ap field e ∙ off)

  pub Event-Serving :
      (s : Server) (r : Handled Server)
      → Event env json s r
      → Serving ssl max s
      → Serving ssl max (left r)
  Event-Serving s r (accepts failed pending) v = handle_accepted-Serving max ssl failed s v
  Event-Serving s r (shakes failed before a behind e busy) v =
      with_connection-Serving ssl max s before a (shook failed a) behind v e
        (λ g. shook-Guarded ssl max failed a g busy)
  Event-Serving s r (reads failed input x before a behind e busy) v =
      after_read-Serving ssl max s before a behind (handle_read env json failed input x a.conn) v e
        (pending-used (λ c. c.read_pending) a.conn refl busy)
        (handle_read-TakesOver env json failed input x a.conn)
  Event-Serving s r (writes failed before a behind e busy) v =
      let u = with_connection-Serving ssl max s before a (wrote failed a) behind v e (λ g.
        used-Guarded ssl max a (wrote failed a).conn g
          (pending-used (λ c. c.writer.in_write) a.conn refl busy)) in
      record {
        kind = u.kind;
        count = u.count;
        accepts = u.accepts;
        next = u.next;
        connections = u.connections;
        web_sockets = u.web_sockets;
      }
  Event-Serving s r (times_out cancelled before a behind e busy) v =
      with_connection-Serving ssl max s before a (timed_out cancelled a) behind v e (λ g.
        used-Guarded ssl max a (timed_out cancelled a).conn g
          (pending-used (λ c. c.keep_alive_timer) a.conn refl busy))
  Event-Serving s r (goes_on before c d behind e step) v =
      let (inv, put) =
        All-middle (Holds Inv) before (running c) behind
          (subst (All (Holds Inv)) e v.web_sockets) in
      record {
        kind = v.kind;
        count = v.count;
        accepts = v.accepts;
        next = v.next;
        connections = v.connections;
        web_sockets = put (running d) (Step-Inv json step inv);
      }

pub listening-Serving : (ssl : Bool) (max : ℕ) → Serving ssl max (listening ssl max)
unfolding listening
listening-Serving true max =
    accept_next_ssl-Serving max _
      (record { kind = refl; count = refl; connections = tt; web_sockets = tt })
listening-Serving false max =
    accept_next-Serving max _
      (record { kind = refl; count = refl; connections = tt; web_sockets = tt })
