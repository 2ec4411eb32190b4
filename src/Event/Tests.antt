-- ===== src/Event/Tests.antt =====
-- Two handlers, the second of which goes first, over signals that are two lists.
use suda_gureum.Base.{ℕ, ◌+◌, ◌*◌, ◌≡◌, refl, true, false, List, [], ◌∷◌, ◌++◌}
use suda_gureum.Event.Order.{
  Op, connects, adds, disconnects, operate_all, picked, run_ops, fire-operate_all,
}
use suda_gureum.Event.{Signals, without, call_each, connect, disconnect, add_handler, fire}

abbrev Slots : Type 0
Slots = List (ℕ × (ℕ → ℕ → ℕ))

abbrev lists : Signals ℕ ℕ
lists = record {
  Signal = Slots × Slots;
  empty = ([], []);
  grouped = λ s. s.0;
  others = λ s. s.1;
  connect_group = λ n f s. (s.0 ++ (n, f) ∷ [], s.1);
  connect_back = λ n f s. (s.0, s.1 ++ (n, f) ∷ []);
  disconnect_slot = λ n s. (without n s.0, without n s.1);
  empty_lem = (refl, refl);
  connect_group_lem = λ n f s. (refl, refl);
  connect_back_lem = λ n f s. (refl, refl);
  disconnect_lem = λ n s. (refl, refl);
}

abbrev doubling : ℕ → ℕ → ℕ
doubling arg s = s * 2

abbrev adding : ℕ → ℕ → ℕ
adding arg s = s + arg

abbrev two_handlers : List (Op (ℕ → ℕ → ℕ))
two_handlers =
    adds 1 doubling ∷ connects 2 adding true ∷ connects 3 adding false ∷ disconnects 3 ∷ []

fire_example : fire lists (run_ops lists two_handlers ([], [])) 5 1 ≡ 12
unfolding fire connect disconnect add_handler
fire_example = refl

fire-operate_all_example :
    fire lists (run_ops lists two_handlers ([], [])) 5 1
    ≡ call_each
        (picked false (operate_all two_handlers []))
        5
        (call_each (picked true (operate_all two_handlers [])) 5 1)
fire-operate_all_example = fire-operate_all lists two_handlers 5 1
