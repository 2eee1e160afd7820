-- ===== src/Lock/Server/Fifo.antt =====
-- The order in which lock_server_cache.cc serves the clients that found a lock owned.
use mathlib.Core.Option.{some-injective}
use y_f_s.Base.{
  ℕ, ◌≡◌, ap, sym, ◌∙◌, Option, none, some, List, [], ◌∷◌, ◌++◌, append-nil, append_assoc, arith,
}
use y_f_s.Lock.Server.{State}
use y_f_s.Lock.Server.Steps.{Event, step, run, Leaves, and_then}
use y_f_s.Lock.Server.Turns.{
  waits, asks_late, Answered, step-Answered, granted, InTurn, step-InTurn,
}

abbrev pub then_all : (State → List (List ℕ)) → Option State → List (List ℕ)
then_all f none = []
then_all f (some s) = f s

-- The clients that ask for the lock on the way while it has an owner
unfoldable pub all_late : ℕ → List Event → State → List (List ℕ)
all_late lid [] s = []
all_late lid (e ∷ es) s = asks_late lid e s ++ then_all (all_late lid es) (step e s)

-- The clients whose wait for it ends on the way
unfoldable pub all_granted : ℕ → List Event → State → List (List ℕ)
all_granted lid [] s = []
all_granted lid (e ∷ es) s = granted lid e s ++ then_all (all_granted lid es) (step e s)

-- Every `acquire` on the way is answered so.
abbrev pub AllAnswered : List Event → State → Type 0
AllAnswered [] s = Unit
AllAnswered (e ∷ es) s = Answered e s × Leaves (AllAnswered es) (step e s)

all-Leaves : {P : State → Type 0} → (o : Option State) → ((u : State) → P u) → Leaves P o
all-Leaves none h = tt
all-Leaves (some u) h = h u

run-AllAnswered : (es : List Event) (s : State) → AllAnswered es s
run-AllAnswered [] s = tt
run-AllAnswered (e ∷ es) s = (step-Answered e s, all-Leaves (step e s) (run-AllAnswered es))

run-InTurn :
    (lid : ℕ) (es : List Event) (s t : State)
    → run es s ≡ some t
    → waits lid s ++ all_late lid es s ≡ all_granted lid es s ++ waits lid t
unfolding run all_late all_granted
run-InTurn lid [] s t r = append-nil _ ∙ ap (waits lid) (some-injective s t r)
run-InTurn lid (e ∷ es) s t r = go (step e s) (step-InTurn lid e s) r (λ u. run-InTurn lid es u t)
  where
    go :
        (o : Option State)
        → Leaves (InTurn lid e s) o
        → and_then (run es) o ≡ some t
        → ((u : State)
            → run es u ≡ some t
            → waits lid u ++ all_late lid es u ≡ all_granted lid es u ++ waits lid t)
        → waits lid s ++ (asks_late lid e s ++ then_all (all_late lid es) o)
          ≡ (granted lid e s ++ then_all (all_granted lid es) o) ++ waits lid t
    go none k r ih = absurd (ground (arith, r))
    go (some u) k r ih =
        sym (append_assoc (waits lid s) (asks_late lid e s) (all_late lid es u))
        ∙ ap (λ x. x ++ all_late lid es u) k
        ∙ append_assoc (granted lid e s) (waits lid u) (all_late lid es u)
        ∙ ap (λ x. granted lid e s ++ x) (ih u r)
        ∙ sym (append_assoc (granted lid e s) (all_granted lid es u) (waits lid t))

-- Whichever steps are taken, each `acquire` is answered RETRY where its lock has an owner then, and
-- OK where it has none; and the clients that are queued for a lock at first, followed by those that
-- ask for it on the way while it has an owner, are those that the answers OK to the server's calls
-- of `retry` take off the queue, followed by those that are queued at the end. A client that asks
-- while the lock has no owner is answered OK without the queue.
pub waits_are_fifo :
    (lid : ℕ) (es : List Event) (s t : State)
    → run es s ≡ some t
    → AllAnswered es s × (waits lid s ++ all_late lid es s ≡ all_granted lid es s ++ waits lid t)
waits_are_fifo lid es s t r = (run-AllAnswered es s, run-InTurn lid es s t r)
