-- ===== src/Irc/Client/Pool/Signals.antt =====
-- The constructor of `IrcClientPool` (IrcClient.cpp): its signal set, which waits once. As asio documents
-- it, a signal of the set that comes while nothing waits is kept there; one that is not of the set is not
-- the pool's.
use suda_gureum.Base.{
  ◌≡◌, refl, Bool, true, false, List, [], ◌∷◌, ◌++◌, ap, ◌∙◌, if◌then◌else◌, Bool-cases, inl, inr,
}
use suda_gureum.Irc.Client.Pool.Table.{Operation, closes_all, operate, operate_all}
use suda_gureum.Irc.Client.Pool.{ClientPool, new_pool}

pub data Signal : Type 0 where
  sigint sigterm sigquit other_signal : Signal

pub record SignalPool : Type 0 where
  pub pool : ClientPool
  pub added : List Signal
  pub waiting : Bool
  pub kept : List Signal

-- Whether the platform has `SIGQUIT`.
abbrev pub construct_pool : Bool → SignalPool
construct_pool has_sigquit = record {
  pool = new_pool;
  added = sigint ∷ sigterm ∷ (if has_sigquit then sigquit ∷ [] else []);
  waiting = true;
  kept = [];
}

abbrev same_signal : Signal → Signal → Bool
same_signal sigint sigint = true
same_signal sigterm sigterm = true
same_signal sigquit sigquit = true
same_signal _ _ = false

abbrev has_signal : Signal → List Signal → Bool
has_signal signal [] = false
has_signal signal (s ∷ added) = if same_signal s signal then true else has_signal signal added

-- A signal of the set: the handler calls `closeAll` and does not wait again.
abbrev handled : Signal → Bool → SignalPool → SignalPool
handled signal true p = record p { pool = operate closes_all p.pool; waiting = false }
handled signal false p = record p { kept = p.kept ++ signal ∷ [] }

pub deliver : Signal → SignalPool → SignalPool
deliver signal p = if has_signal signal p.added then handled signal p.waiting p else p

-- The pool's operations with the signals between them.
pub data Step : Type 0 where
  operates : Operation → Step
  delivers : Signal → Step

abbrev pub steps : List Step → SignalPool → SignalPool
steps [] p = p
steps (operates o ∷ ss) p = steps ss (record p { pool = operate o p.pool })
steps (delivers signal ∷ ss) p = steps ss (deliver signal p)

abbrev pub operations : List Step → List Operation
operations [] = []
operations (operates o ∷ ss) = o ∷ operations ss
operations (delivers signal ∷ ss) = operations ss

deliver-spent :
    (signal : Signal) (p : SignalPool)
    → p.waiting ≡ false
    → ((deliver signal p).pool ≡ p.pool) × ((deliver signal p).waiting ≡ false)
unfolding deliver
deliver-spent signal p spent = elim (Bool-cases (has_signal signal p.added)) [
  | inl has ↦ (rw (has, spent), rw (has, spent))
  | inr not_there ↦ (rw not_there, rw (not_there, spent))
]

-- Once the wait is over the signals do nothing to the clients.
steps-spent :
    (ss : List Step) (p : SignalPool)
    → p.waiting ≡ false
    → (steps ss p).pool ≡ operate_all (operations ss) p.pool
steps-spent [] p spent = refl
steps-spent (operates o ∷ ss) p spent = steps-spent ss (record p { pool = operate o p.pool }) spent
steps-spent (delivers signal ∷ ss) p spent =
    let (same, still) = deliver-spent signal p spent in
    steps-spent ss (deliver signal p) still ∙ ap (operate_all (operations ss)) same

deliver-first :
    (signal : Signal) (p : SignalPool)
    → p.waiting ≡ true
    → has_signal signal p.added ≡ true
    → deliver signal p ≡ handled signal true p
unfolding deliver
deliver-first signal p waits has = rw (has, waits)

-- The first signal of the set closes the clients that are there, and no later signal closes any.
steps-first_signal :
    (signal : Signal) (ss : List Step) (p : SignalPool)
    → p.waiting ≡ true
    → has_signal signal p.added ≡ true
    → (steps (delivers signal ∷ ss) p).pool
      ≡ operate_all (operations ss) (operate closes_all p.pool)
steps-first_signal signal ss p waits has =
    ap (λ q. (steps ss q).pool) (deliver-first signal p waits has)
    ∙ steps-spent ss (handled signal true p) refl
