-- ===== src/Socket/Blocked.antt =====
-- What an empty frame does to the queue.
use suda_gureum.Base.{ℕ, is_empty, ◌≡◌, ap, refl, false, List, [], ◌∷◌, ◌++◌, Bytes, arith}
use suda_gureum.Socket.Order.{
  System, Step, start, queues, writes, completes, resets, handles, Reach, here, next,
}
use suda_gureum.Socket.{
  Entry, BufferedWriter, emplace_back, async_write, write_front, handle_write, handle_front,
  finish_write,
}

-- An empty frame in front and no write outstanding.
pub record IsStuck (handed : List Bytes) (s : System) : Type 0 where
  pub front : ℕ
  pub rest : List Entry
  pub blocked : s.writer.buffer_to_write ≡ ([], front) ∷ rest
  pub idle : s.writer.in_write ≡ false
  pub same : s.writer.handed ≡ handed

Step-IsStuck : {handed : List Bytes} {s t : System} → Step s t → IsStuck handed s → IsStuck handed t
unfolding emplace_back async_write write_front
Step-IsStuck {handed} {s} (queues frame handler) v = record {
  front = v.front;
  rest = v.rest ++ (frame, handler) ∷ [];
  blocked = ap (λ es. es ++ (frame, handler) ∷ []) v.blocked;
  idle = v.idle;
  same = v.same;
}
Step-IsStuck {handed} {s} (writes n e) v = record {
  front = v.front;
  rest = v.rest;
  blocked = ground (arith, v.blocked, v.idle);
  idle = ground (arith, v.blocked, v.idle);
  same = ground (arith, v.blocked, v.idle, v.same);
}
Step-IsStuck {handed} {s} (completes error frame handler rest on unpopped e) v =
    absurd (ground (arith, v.idle))
Step-IsStuck {handed} {s} (resets handler error e) v = record {
  front = v.front;
  rest = v.rest;
  blocked = v.blocked;
  idle = refl;
  same = v.same;
}
Step-IsStuck {handed} {s} (handles before handler error behind e) v = record {
  front = v.front;
  rest = v.rest;
  blocked = v.blocked;
  idle = v.idle;
  same = v.same;
}

-- From a state with an empty frame in front and no write outstanding, whatever is queued later:
-- nothing is handed to the socket any more, and the empty frame stays in front.
pub Reach-IsStuck :
    {handed : List Bytes} {s t : System} → IsStuck handed s → Reach s t → IsStuck handed t
Reach-IsStuck v here = v
Reach-IsStuck v (next r s) = Step-IsStuck s (Reach-IsStuck v r)

-- A head with something in it and an empty body, queued on an idle writer: once the write of the head
-- is completed, the writer is stuck.
pub sends-IsStuck :
    (head : Bytes) (w : BufferedWriter)
    → is_empty head ≡ false
    → w.buffer_to_write ≡ []
    → w.in_write ≡ false
    → IsStuck (w.handed ++ head ∷ []) (
        start (
          finish_write false
            (async_write (emplace_back [] 0 (async_write (emplace_back head 0 w))))))
unfolding emplace_back async_write write_front handle_write handle_front
sends-IsStuck head w filled empty idle = record {
  front = 0;
  rest = [];
  blocked = ground (arith, filled, empty, idle);
  idle = ground (arith, filled, empty, idle);
  same = ground (arith, filled, empty, idle);
}
