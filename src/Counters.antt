-- ===== src/Counters.antt =====
-- src/equic_user.c, `equic_inc_counter` and `equic_dec_counter`: user space counts the connections
-- of each client in the map that the hook of src/equic_kern.c reads.
pub mod Laws
pub mod History
pub mod Full
pub mod Quota
mod Tests
use equic.Prelude.{ℕ, ◌+◌, ◌-◌, ◌%◌, ◌^◌, Option, none, some, List, [], ◌∷◌, ◌==◌, if◌then◌else◌}
use equic.Net.{InAddr, be32}
use equic.BpfMap.{BpfMap, bpf_exist, bpf_noexist}

-- `int` addition of one, on the bits of the value.
abbrev pub add_one : ℕ → ℕ
add_one v = (v + 1) % 2 ^ 32

-- What the callers see of a client: it opens a connection, or closes one.
pub data Event : Type 0 where
  opened closed : InAddr → Event

module _ (bpf : BpfMap) where
  open bpf use {Map, lookup, update}

  -- An update that fails is printed and otherwise ignored.
  updated : Map → Option Map → Map
  updated m none = m
  updated m (some m') = m'

  inc_value : Map → ℕ → Option ℕ → Map
  inc_value m key (some value) = updated m (update m key (add_one value) bpf_exist)
  inc_value m key none = updated m (update m key 1 bpf_noexist)

  pub equic_inc_counter : Map → InAddr → Map
  unfolding updated inc_value
  equic_inc_counter m client = let key = be32 client in inc_value m key (lookup m key)

  dec_value : Map → ℕ → Option ℕ → Map
  dec_value m key (some value) =
      if value == 0 then m else updated m (update m key (value - 1) bpf_exist)
  dec_value m key none = m

  pub equic_dec_counter : Map → InAddr → Map
  unfolding updated dec_value
  equic_dec_counter m client = let key = be32 client in dec_value m key (lookup m key)

  unfoldable pub step : Map → Event → Map
  step m (opened client) = equic_inc_counter m client
  step m (closed client) = equic_dec_counter m client

  unfoldable pub run : Map → List Event → Map
  unfolding step
  run m [] = m
  run m (e ∷ es) = run (step m e) es
