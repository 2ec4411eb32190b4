-- ===== src/Socket/Layers/Once.antt =====
-- Every handler is called once.
use mathlib.Core.Path.{subst}
use suda_gureum.Base.{
  ℕ, ◌+◌, ◌≡◌, ap, Bool, true, false, List, [], ◌∷◌, ◌++◌, Option, none, some, ◌==◌, if◌then◌else◌,
  Bytes, arith,
}
use suda_gureum.Socket.Layers.{
  Operation, handshake_as_server, handshake_as_client, connect, connect_ssl, read_some, write,
  Stream, new_stream, start, SocketBase, tcp_socket, tcp_ssl_socket, buffered, complete,
}
use suda_gureum.Socket.{BufferedWriter}

abbrev pub handler_of : Operation → ℕ
handler_of (handshake_as_server handler) = handler
handler_of (handshake_as_client handler) = handler
handler_of (connect handler) = handler
handler_of (connect_ssl handler) = handler
handler_of (read_some size handler) = handler
handler_of (write bytes handler) = handler

-- How often a number is that of an element.
abbrev pub count {ℓ} : {A : Type ℓ} → (A → ℕ) → ℕ → List A → ℕ
count f n [] = 0
count f n (x ∷ xs) = (if f x == n then 1 else 0) + count f n xs

count-append {ℓ} :
    {A : Type ℓ} (f : A → ℕ) (n : ℕ) (xs ys : List A)
    → count f n (xs ++ ys) ≡ count f n xs + count f n ys
count-append f n [] ys = omega arith
count-append f n (x ∷ xs) ys = omega (arith, count-append f n xs ys)

pub some-injective {ℓ} : {A : Type ℓ} {x y : A} → some x ≡ some y → x ≡ y
some-injective h = cc h

-- A socket with or without SSL, behind the class with the buffer.
abbrev pub base_of : Bool → SocketBase (Stream × BufferedWriter)
base_of false = buffered tcp_socket
base_of true = buffered tcp_ssl_socket

-- A socket, and the handlers that it was given, in order.
pub record System : Type 0 where
  pub socket : Stream × BufferedWriter
  pub given : List ℕ

abbrev give : ℕ → Stream × BufferedWriter → System → System
give handler socket s = record { socket = socket; given = s.given ++ handler ∷ [] }

-- A call of one of the operations, or the completion of one that is pending.
pub data Step (ssl : Bool) (s : System) : System → Type 0 where
  shakes :
      (handler : ℕ) (socket : Stream × BufferedWriter)
      → (base_of ssl).async_handshake_as_server handler s.socket ≡ some socket
      → Step ssl s (give handler socket s)
  reads :
      (size handler : ℕ)
      → Step ssl s (give handler ((base_of ssl).async_read_some size handler s.socket) s)
  writes :
      (bytes : Bytes) (handler : ℕ)
      → Step ssl s (give handler ((base_of ssl).async_write bytes handler s.socket) s)
  connects :
      (handler : ℕ) → Step ssl s (give handler ((base_of ssl).async_connect handler s.socket) s)
  closes : Step ssl s (record s { socket = (base_of ssl).close s.socket })
  completes :
      (before : List Operation) (operation : Operation) (behind : List Operation) (ec : Option ℕ)
      → s.socket.0.pending ≡ before ++ operation ∷ behind
      → Step ssl s (record s {
        socket =
            (complete operation ec (record s.socket.0 { pending = before ++ behind }), s.socket.1);
      })

pub data Reach (ssl : Bool) (s : System) : System → Type 0 where
  here : Reach ssl s s
  next : {t u : System} → Reach ssl s t → Step ssl t u → Reach ssl s u

abbrev pub fresh : BufferedWriter → System
fresh w = record { socket = (new_stream, w); given = [] }

abbrev pub called_number : Operation × Option ℕ → ℕ
called_number (operation, ec) = handler_of operation

-- A handler has been called, or its operation is pending, as often as it was given.
abbrev pub IsOnce : System → ℕ → Type 0
IsOnce s n =
    count called_number n s.socket.0.called + count handler_of n s.socket.0.pending
    ≡ count (λ h. h) n s.given

start-count :
    (operation : Operation) (n : ℕ) (s : Stream)
    → count handler_of n (start operation s).pending
      ≡ count handler_of n s.pending + (if handler_of operation == n then 1 else 0)
start-count operation n s = omega (arith, count-append {0} handler_of n s.pending (operation ∷ []))

-- Giving a handler to a socket whose pending operations grow by one of that handler.
give-IsOnce :
    (s : System) (operation : Operation) (w : BufferedWriter) (n : ℕ)
    → IsOnce s n
    → IsOnce (give (handler_of operation) (start operation s.socket.0, w) s) n
give-IsOnce s operation w n h = omega (
  arith,
  h,
  start-count operation n s.socket.0,
  count-append {0} (λ k. k) n s.given (handler_of operation ∷ []),
)

complete-count :
    (operation : Operation) (ec : Option ℕ) (n : ℕ) (s : Stream)
    → count called_number n (complete operation ec s).called
        + count handler_of n (complete operation ec s).pending
      ≡ count called_number n s.called
        + count handler_of n s.pending
        + (if handler_of operation == n then 1 else 0)
unfolding complete
complete-count (connect_ssl handler) none n s =
    omega (arith, start-count (handshake_as_client handler) n s)
complete-count (connect_ssl handler) (some code) n s =
    omega (arith, count-append {0} called_number n s.called ((connect_ssl handler, some code) ∷ []))
complete-count (handshake_as_server handler) ec n s =
    omega
      (arith, count-append {0} called_number n s.called ((handshake_as_server handler, ec) ∷ []))
complete-count (handshake_as_client handler) ec n s =
    omega
      (arith, count-append {0} called_number n s.called ((handshake_as_client handler, ec) ∷ []))
complete-count (connect handler) ec n s =
    omega (arith, count-append {0} called_number n s.called ((connect handler, ec) ∷ []))
complete-count (read_some size handler) ec n s =
    omega (arith, count-append {0} called_number n s.called ((read_some size handler, ec) ∷ []))
complete-count (write bytes handler) ec n s =
    omega (arith, count-append {0} called_number n s.called ((write bytes handler, ec) ∷ []))

completes-IsOnce :
    (s : System) (before : List Operation) (operation : Operation) (behind : List Operation)
    (ec : Option ℕ) (n : ℕ)
    → s.socket.0.pending ≡ before ++ operation ∷ behind
    → IsOnce s n
    → IsOnce
        (record s {
          socket = (
            complete operation ec (record s.socket.0 { pending = before ++ behind }),
            s.socket.1,
          );
        })
        n
completes-IsOnce s before operation behind ec n e h = omega (
  arith,
  h,
  ap (count handler_of n) e,
  count-append {0} handler_of n before (operation ∷ behind),
  count-append {0} handler_of n before behind,
  complete-count operation ec n (record s.socket.0 { pending = before ++ behind }),
)

pub Step-IsOnce : (ssl : Bool) (s t : System) (n : ℕ) → Step ssl s t → IsOnce s n → IsOnce t n
Step-IsOnce false s t n (shakes handler socket e) h = ground (arith, e)
Step-IsOnce true s t n (shakes handler socket e) h =
    subst (λ o. IsOnce (give handler o s) n) (some-injective e)
      (give-IsOnce s (handshake_as_server handler) s.socket.1 n h)
Step-IsOnce false s t n (reads size handler) h =
    give-IsOnce s (read_some size handler) s.socket.1 n h
Step-IsOnce true s t n (reads size handler) h =
    give-IsOnce s (read_some size handler) s.socket.1 n h
Step-IsOnce false s t n (writes bytes handler) h =
    give-IsOnce s (write bytes handler) s.socket.1 n h
Step-IsOnce true s t n (writes bytes handler) h = give-IsOnce s (write bytes handler) s.socket.1 n h
Step-IsOnce false s t n (connects handler) h = give-IsOnce s (connect handler) s.socket.1 n h
Step-IsOnce true s t n (connects handler) h = give-IsOnce s (connect_ssl handler) s.socket.1 n h
Step-IsOnce false s t n closes h = h
Step-IsOnce true s t n closes h = h
Step-IsOnce ssl s t n (completes before operation behind ec e) h =
    completes-IsOnce s before operation behind ec n e h
