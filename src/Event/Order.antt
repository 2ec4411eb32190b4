-- ===== src/Event/Order.antt =====
-- An event refines the list of its handlers in the order in which they were connected.
use suda_gureum.Base.{
  ℕ, ◌≡◌, refl, sym, ap, ◌∙◌, Bool, true, false, List, [], ◌∷◌, ◌++◌, ◌==◌, if◌then◌else◌,
  append-nil, arith,
}
use suda_gureum.Event.{
  Signals, without, call_each, connect, disconnect, add_handler, remove_handler, fire,
}

-- What is asked of an event with slots of type `F`.
pub data Op (F : Type 0) : Type 0 where
  connects : ℕ → F → Bool → Op F
  disconnects : ℕ → Op F
  adds : ℕ → F → Op F
  removes : ℕ → Op F

-- A handler: its slot, and whether it goes first; with the number of its connection.
abbrev pub Handlers : Type 0 → Type 0
Handlers F = List (ℕ × F × Bool)

module _ {F : Type 0} where
  -- The handlers left without one connection.
  abbrev pub dropped : ℕ → Handlers F → Handlers F
  dropped n [] = []
  dropped n ((m, f, prior) ∷ hs) =
      let rest : Handlers F = dropped n hs in if m == n then rest else (m, f, prior) ∷ rest

  -- The abstract event: a handler is added behind all others, or left out.
  abbrev pub operate : Op F → Handlers F → Handlers F
  operate (connects n f prior) hs = hs ++ (n, f, prior) ∷ []
  operate (disconnects n) hs = dropped n hs
  operate (adds n f) hs = hs ++ (n, f, false) ∷ []
  operate (removes n) hs = dropped n hs

  abbrev pub operate_all : List (Op F) → Handlers F → Handlers F
  operate_all [] hs = hs
  operate_all (op ∷ ops) hs = operate_all ops (operate op hs)

  -- Those that go first, or the others.
  abbrev pub kept_if : Bool → Bool → ℕ × F → List (ℕ × F) → List (ℕ × F)
  kept_if true true h hs = h ∷ hs
  kept_if false false h hs = h ∷ hs
  kept_if _ _ h hs = hs

  abbrev pub picked : Bool → Handlers F → List (ℕ × F)
  picked first [] = []
  picked first ((n, f, prior) ∷ hs) = kept_if first prior (n, f) (picked first hs)

  picked-append :
      (first : Bool) (hs : Handlers F) (n : ℕ) (f : F) (prior : Bool)
      → picked first (hs ++ (n, f, prior) ∷ []) ≡ picked first hs ++ kept_if first prior (n, f) []
  picked-append true [] n f true = refl
  picked-append true [] n f false = refl
  picked-append false [] n f true = refl
  picked-append false [] n f false = refl
  picked-append true ((m, g, true) ∷ hs) n f prior =
      ap (λ fs. (m, g) ∷ fs) (picked-append true hs n f prior)
  picked-append false ((m, g, false) ∷ hs) n f prior =
      ap (λ fs. (m, g) ∷ fs) (picked-append false hs n f prior)
  picked-append true ((m, g, false) ∷ hs) n f prior = picked-append true hs n f prior
  picked-append false ((m, g, true) ∷ hs) n f prior = picked-append false hs n f prior

  picked-dropped :
      (first : Bool) (n : ℕ) (hs : Handlers F)
      → picked first (dropped n hs) ≡ without n (picked first hs)
  picked-dropped first n [] = refl
  picked-dropped true n ((m, f, true) ∷ hs) = ground (arith, picked-dropped true n hs)
  picked-dropped true n ((m, f, false) ∷ hs) = ground (arith, picked-dropped true n hs)
  picked-dropped false n ((m, f, true) ∷ hs) = ground (arith, picked-dropped false n hs)
  picked-dropped false n ((m, f, false) ∷ hs) = ground (arith, picked-dropped false n hs)

module _ {State Arg : Type 0} (b : Signals State Arg) where
  abbrev pub run_op : Op (Arg → State → State) → b.Signal → b.Signal
  run_op (connects n f prior) e = connect b n f prior e
  run_op (disconnects n) e = disconnect b n e
  run_op (adds n f) e = add_handler b n f e
  run_op (removes n) e = remove_handler b n e

  abbrev pub run_ops : List (Op (Arg → State → State)) → b.Signal → b.Signal
  run_ops [] e = e
  run_ops (op ∷ ops) e = run_ops ops (run_op op e)

  record Refines (e : b.Signal) (hs : Handlers (Arg → State → State)) : Type 0 where
    grouped : b.grouped e ≡ picked true hs
    others : b.others e ≡ picked false hs

  connect-Refines :
      (n : ℕ) (f : Arg → State → State) (prior : Bool) (e : b.Signal)
      (hs : Handlers (Arg → State → State))
      → Refines e hs
      → Refines (connect b n f prior e) (hs ++ (n, f, prior) ∷ [])
  unfolding connect
  connect-Refines n f true e hs v =
      let (g, o) = b.connect_group_lem n f e in
      record {
        grouped = g ∙ ap (λ fs. fs ++ (n, f) ∷ []) v.grouped ∙ sym (picked-append true hs n f true);
        others =
            o
            ∙ v.others
            ∙ sym (append-nil (picked false hs))
            ∙ sym (picked-append false hs n f true);
      }
  connect-Refines n f false e hs v =
      let (g, o) = b.connect_back_lem n f e in
      record {
        grouped =
            g
            ∙ v.grouped
            ∙ sym (append-nil (picked true hs))
            ∙ sym (picked-append true hs n f false);
        others = o ∙ ap (λ fs. fs ++ (n, f) ∷ []) v.others ∙ sym (picked-append false hs n f false);
      }

  disconnect-Refines :
      (n : ℕ) (e : b.Signal) (hs : Handlers (Arg → State → State))
      → Refines e hs
      → Refines (disconnect b n e) (dropped n hs)
  unfolding disconnect
  disconnect-Refines n e hs v =
      let (g, o) = b.disconnect_lem n e in
      record {
        grouped = g ∙ ap (without n) v.grouped ∙ sym (picked-dropped true n hs);
        others = o ∙ ap (without n) v.others ∙ sym (picked-dropped false n hs);
      }

  run_op-Refines :
      (op : Op (Arg → State → State)) (e : b.Signal) (hs : Handlers (Arg → State → State))
      → Refines e hs
      → Refines (run_op op e) (operate op hs)
  unfolding add_handler remove_handler connect disconnect
  run_op-Refines (connects n f prior) e hs v = connect-Refines n f prior e hs v
  run_op-Refines (disconnects n) e hs v = disconnect-Refines n e hs v
  run_op-Refines (adds n f) e hs v = connect-Refines n f false e hs v
  run_op-Refines (removes n) e hs v = disconnect-Refines n e hs v

  run_ops-Refines :
      (ops : List (Op (Arg → State → State))) (e : b.Signal) (hs : Handlers (Arg → State → State))
      → Refines e hs
      → Refines (run_ops ops e) (operate_all ops hs)
  run_ops-Refines [] e hs v = v
  run_ops-Refines (op ∷ ops) e hs v =
      run_ops-Refines ops (run_op op e) (operate op hs) (run_op-Refines op e hs v)

  -- Whatever was connected and disconnected before, by the methods or the operators: an event that is
  -- fired calls the handlers that are still connected, each with the argument; first those that were
  -- connected as prior, then all others, and each of the two kinds in the order of the connections.
  pub fire-operate_all :
      (ops : List (Op (Arg → State → State))) (arg : Arg) (s : State)
      → fire b (run_ops ops b.empty) arg s
        ≡ call_each
            (picked false (operate_all ops []))
            arg
            (call_each (picked true (operate_all ops [])) arg s)
  unfolding fire
  fire-operate_all ops arg s =
      let v =
        run_ops-Refines ops b.empty []
          (record { grouped = b.empty_lem.0; others = b.empty_lem.1 }) in
      ap (λ fs. call_each fs arg (call_each (b.grouped (run_ops ops b.empty)) arg s)) v.others
      ∙ ap (λ fs. call_each (picked false (operate_all ops [])) arg (call_each fs arg s)) v.grouped
