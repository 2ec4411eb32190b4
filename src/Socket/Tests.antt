-- ===== src/Socket/Tests.antt =====
-- The write queue at concrete input.
use suda_gureum.Base.{refl, true, false, [], ◌∷◌, none, codes, arith}
use suda_gureum.Socket.Order.{
  System, start, Reach, here, next, queues, writes, completes, resets, handles, InTurn,
  Reach-InTurn,
}
use suda_gureum.Socket.{initial, emplace_back, async_write, write_front}

initial-InTurn : InTurn (start initial)
initial-InTurn = record {
  completed = [];
  all = refl;
  called = λ n. refl;
  handed = refl;
  busy = λ on. ground arith;
  off = λ _. refl;
}

abbrev one_done : System
one_done = record {
  writer = record {
    buffer_to_write = (codes "b", 2) ∷ [];
    in_write = true;
    handed = codes "a" ∷ codes "b" ∷ [];
    handled = 1 ∷ [];
  };
  queued = (codes "a", 1) ∷ (codes "b", 2) ∷ [];
  owed = 0;
  popped = none;
  taken = [];
}

Reach-one_done : Reach (start initial) one_done
unfolding emplace_back async_write write_front
Reach-one_done =
    next
      (next
        (next
          (next
            (next
              (next (next (next here (queues (codes "a") 1)) (queues (codes "b") 2))
                (writes 1 refl))
              (writes 0 refl))
            (completes false (codes "a") 1 ((codes "b", 2) ∷ []) refl refl refl))
          (resets 1 false refl))
        (handles [] 1 false [] refl))
      (writes 0 refl)

Reach-InTurn_example : InTurn one_done
Reach-InTurn_example = Reach-InTurn initial-InTurn Reach-one_done
