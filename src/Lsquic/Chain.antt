-- ===== src/Lsquic/Chain.antt =====
-- Handlers, and parts of a handler, that run one after the other.
use mathlib.Core.List.{append-nil}
use equic.Prelude.{◌≡◌, refl, ap, List, [], ◌++◌}
use equic.Lsquic.{Call, Outcome, returns, exits, faults}

module _ {ℓ} {S : Type ℓ} where
  -- An outcome after some calls.
  unfoldable pub after : List Call → Outcome S → Outcome S
  after calls (returns s more) = returns s (calls ++ more)
  after calls (exits code) = exits code
  after calls faults = faults

  -- What follows runs in the state that is left, if the first part returned.
  unfoldable pub and_then : Outcome S → (S → Outcome S) → Outcome S
  unfolding after
  and_then (returns s calls) next = after calls (next s)
  and_then (exits code) next = exits code
  and_then faults next = faults

  pub after_nothing : (outcome : Outcome S) → after [] outcome ≡ outcome
  unfolding after
  after_nothing (returns s calls) = refl
  after_nothing (exits code) = refl
  after_nothing faults = refl

  pub and_then_nothing : (outcome : Outcome S) → and_then outcome (λ s. returns s []) ≡ outcome
  unfolding and_then after
  and_then_nothing (returns s calls) = ap (returns s) (append-nil calls)
  and_then_nothing (exits code) = refl
  and_then_nothing faults = refl
