-- ===== src/Event.antt =====
-- `Event` (Event.h), and the events of `IrcClient` that `User` listens to (User.cpp). The signals of Boost are
-- an interface with their documented order: a slot that is connected to a group goes behind the others of
-- the group, one without a group behind all, and the groups are called first.
pub mod Order
pub mod Tests
use suda_gureum.Base.{ℕ, ◌≡◌, Bool, true, false, List, [], ◌∷◌, ◌++◌, ◌==◌, if◌then◌else◌}

-- Without the slots of a connection.
abbrev pub without {ℓ} : {F : Type ℓ} → ℕ → List (ℕ × F) → List (ℕ × F)
without n [] = []
without n ((m, f) ∷ fs) = let rest = without n fs in if m == n then rest else (m, f) ∷ rest

-- Slots that change a state; a connection has a number of its own.
pub record Signals (State Arg : Type 0) : Type 1 where
  pub Signal : Type 0
  pub empty : Signal
  pub grouped : Signal → List (ℕ × (Arg → State → State))
  pub others : Signal → List (ℕ × (Arg → State → State))
  pub connect_group : ℕ → (Arg → State → State) → Signal → Signal
  pub connect_back : ℕ → (Arg → State → State) → Signal → Signal
  pub disconnect_slot : ℕ → Signal → Signal
  pub empty_lem : (grouped empty ≡ []) × (others empty ≡ [])
  pub connect_group_lem :
      (n : ℕ) (f : Arg → State → State) (s : Signal)
      → (grouped (connect_group n f s) ≡ grouped s ++ (n, f) ∷ [])
        × (others (connect_group n f s) ≡ others s)
  pub connect_back_lem :
      (n : ℕ) (f : Arg → State → State) (s : Signal)
      → (grouped (connect_back n f s) ≡ grouped s)
        × (others (connect_back n f s) ≡ others s ++ (n, f) ∷ [])
  pub disconnect_lem :
      (n : ℕ) (s : Signal)
      → (grouped (disconnect_slot n s) ≡ without n (grouped s))
        × (others (disconnect_slot n s) ≡ without n (others s))

module _ {State Arg : Type 0} where
  -- The slots, one after the other.
  abbrev pub call_each : List (ℕ × (Arg → State → State)) → Arg → State → State
  call_each [] arg s = s
  call_each ((n, f) ∷ fs) arg s = call_each fs arg (f arg s)

module _ {State Arg : Type 0} (b : Signals State Arg) where
  abbrev pub Slot : Type 0
  Slot = Arg → State → State

  -- `connect`, with the group 0 if the handler goes first.
  pub connect : ℕ → Slot → Bool → b.Signal → b.Signal
  connect n fn prior e = if prior then b.connect_group n fn e else b.connect_back n fn e

  pub disconnect : ℕ → b.Signal → b.Signal
  disconnect n e = b.disconnect_slot n e

  -- `+=`
  pub add_handler : ℕ → Slot → b.Signal → b.Signal
  add_handler n fn e = b.connect_back n fn e

  -- `-=`
  pub remove_handler : ℕ → b.Signal → b.Signal
  remove_handler n e = b.disconnect_slot n e

  -- `operator ()`
  pub fire : b.Signal → Arg → State → State
  fire e arg s = call_each (b.others e) arg (call_each (b.grouped e) arg s)
