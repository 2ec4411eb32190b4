-- ===== src/Socket/Layers/Secured.antt =====
-- Every handler is called once, and with SSL that of a connection after the handshake.
use mathlib.Core.Path.{subst}
use suda_gureum.Base.{
  ℕ, ◌≡◌, refl, Bool, true, false, List, [], ◌∷◌, ◌++◌, Option, none, some, All, All-append,
}
use suda_gureum.Socket.Layers.{
  Operation, handshake_as_server, handshake_as_client, connect, connect_ssl, read_some, write,
  Stream, start, call, complete,
}
use suda_gureum.Socket.{BufferedWriter}
use suda_gureum.Socket.Layers.Once.{
  some-injective, System, Step, shakes, reads, writes, connects, closes, completes, Reach, here,
  next, fresh, IsOnce, Step-IsOnce,
}

-- The connection is made for SSL, and its handler is called for it only where it failed.
abbrev pub IsForSsl : Operation → Type 0
IsForSsl (connect handler) = ⊥
IsForSsl _ = Unit

abbrev pub IsSecured : Operation × Option ℕ → Type 0
IsSecured (connect handler, ec) = ⊥
IsSecured (connect_ssl handler, none) = ⊥
IsSecured _ = Unit

abbrev Secured : Stream → Type 0
Secured s = All IsForSsl s.pending × All IsSecured s.called

start-Secured :
    (operation : Operation) (s : Stream)
    → IsForSsl operation
    → Secured s
    → Secured (start operation s)
start-Secured operation s p (pending, called) =
    (All-append IsForSsl s.pending (operation ∷ []) pending (p, tt), called)

call-Secured :
    (operation : Operation) (ec : Option ℕ) (s : Stream)
    → IsSecured (operation, ec)
    → Secured s
    → Secured (call operation ec s)
call-Secured operation ec s p (pending, called) =
    (pending, All-append IsSecured s.called ((operation, ec) ∷ []) called (p, tt))

complete-Secured :
    (operation : Operation) (ec : Option ℕ) (s : Stream)
    → IsForSsl operation
    → Secured s
    → Secured (complete operation ec s)
unfolding complete
complete-Secured (connect_ssl handler) none s p v =
    start-Secured (handshake_as_client handler) s tt v
complete-Secured (connect_ssl handler) (some code) s p v =
    call-Secured (connect_ssl handler) (some code) s tt v
complete-Secured (handshake_as_server handler) ec s p v =
    call-Secured (handshake_as_server handler) ec s tt v
complete-Secured (handshake_as_client handler) ec s p v =
    call-Secured (handshake_as_client handler) ec s tt v
complete-Secured (connect handler) ec s p v = absurd p
complete-Secured (read_some size handler) ec s p v = call-Secured (read_some size handler) ec s tt v
complete-Secured (write bytes handler) ec s p v = call-Secured (write bytes handler) ec s tt v

All-without :
    (before : List Operation) (operation : Operation) (behind : List Operation)
    → All IsForSsl (before ++ operation ∷ behind)
    → IsForSsl operation × All IsForSsl (before ++ behind)
All-without [] operation behind (p, ps) = (p, ps)
All-without (o ∷ before) operation behind (p, ps) =
    let (q, qs) = All-without before operation behind ps in (q, (p, qs))

Step-Secured : (s t : System) → Step true s t → Secured s.socket.0 → Secured t.socket.0
Step-Secured s t (shakes handler socket e) v =
    subst (λ o. Secured o.0) (some-injective e)
      (start-Secured (handshake_as_server handler) s.socket.0 tt v)
Step-Secured s t (reads size handler) v = start-Secured (read_some size handler) s.socket.0 tt v
Step-Secured s t (writes bytes handler) v = start-Secured (write bytes handler) s.socket.0 tt v
Step-Secured s t (connects handler) v = start-Secured (connect_ssl handler) s.socket.0 tt v
Step-Secured s t closes v = v
Step-Secured s t (completes before operation behind ec e) (pending, called) =
    let (p, rest) = All-without before operation behind (subst (All IsForSsl) e pending) in
    complete-Secured operation ec (record s.socket.0 { pending = before ++ behind }) p
      (rest, called)

Reach-Secured : (w : BufferedWriter) (s : System) → Reach true (fresh w) s → Secured s.socket.0
Reach-Secured w s here = (tt, tt)
Reach-Secured w s (next {t} r step) = Step-Secured t s step (Reach-Secured w t r)

-- A new socket, with SSL or without, whatever is asked of it, and in whatever order and with whatever
-- errors the operations complete: each handler has been called, or its operation is pending, exactly as
-- often as it was given to the socket; and with SSL the handler of a connection is called without an
-- error by the end of the handshake only.
pub Reach-IsOnce :
    (ssl : Bool) (w : BufferedWriter) (s : System)
    → Reach ssl (fresh w) s
    → ((n : ℕ) → IsOnce s n) × (ssl ≡ true → All IsSecured s.socket.0.called)
Reach-IsOnce ssl w s r = (counts s r, λ e. secured ssl e r)
  where
    counts : (t : System) → Reach ssl (fresh w) t → (n : ℕ) → IsOnce t n
    counts t here n = refl
    counts t (next {t = k} q step) n = Step-IsOnce ssl k t n step (counts k q n)

    secured : (b : Bool) → b ≡ true → Reach b (fresh w) s → All IsSecured s.socket.0.called
    secured true e q = (Reach-Secured w s q).1
    secured false e q = cc e
