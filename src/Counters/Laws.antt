-- ===== src/Counters/Laws.antt =====
-- What the two operations of src/equic_user.c leave in the map, for every key.
use equic.Prelude.{
  ℕ, true, ◌+◌, ◌-◌, ◌≤◌, ◌≡◌, refl, sym, arith, Option, none, some, ◌==◌, ltb, if◌then◌else◌, ap,
  ==_iff,
}
use native.Mathlib.Decide.{dec_lt}
use equic.Kern.{max_entries}
use equic.Net.{InAddr, be32}
use equic.BpfMap.{BpfMap, bpf_exist, bpf_noexist}
use equic.Counters.{add_one, updated, inc_value, dec_value, equic_inc_counter, equic_dec_counter}

-- The value of a key after `equic_inc_counter` for that key, on a map of `size` entries.
abbrev pub incremented : ℕ → Option ℕ → Option ℕ
incremented size (some v) = some (add_one v)
incremented size none = if ltb size max_entries then some 1 else none

abbrev pub decremented : Option ℕ → Option ℕ
decremented (some v) = some (v - 1)
decremented none = none

module _ (bpf : BpfMap) where
  open bpf use {Map, lookup, update, size}

  inc_present :
      (m : Map) (key j v : ℕ)
      → lookup m key ≡ some v
      → lookup (inc_value bpf m key (some v)) j
        ≡ (if key == j then some (add_one v) else lookup m j)
  unfolding inc_value updated
  inc_present m key j v h =
      let (m', done, _) = bpf.exist_present m key (add_one v) h in
      rw done (bpf.stored m key (add_one v) bpf_exist j done)

  inc_absent :
      (m : Map) (key j : ℕ)
      → lookup m key ≡ none
      → lookup (inc_value bpf m key none) j
        ≡ (if key == j then incremented (size m) none else lookup m j)
  unfolding inc_value updated
  inc_absent m key j h = elim (dec_lt (size m) max_entries) [
    | yes room ↦
        let (m', done, _) = bpf.noexist_room m key 1 h room in
        rw done (ground (arith, bpf.stored m key 1 bpf_noexist j done))
    | no full ↦ rw (bpf.noexist_full m key 1 h (omega arith)) (ground arith)
  ]

  same_key : (m : Map) (key j : ℕ) → (key == j) ≡ true → lookup m j ≡ lookup m key
  same_key m key j e = ap (lookup m) (sym ((==_iff key j).0 e))

  inc_value_lem :
      (m : Map) (key j : ℕ) (found : Option ℕ)
      → lookup m key ≡ found
      → lookup (inc_value bpf m key found) j
        ≡ (if key == j then incremented (size m) (lookup m j) else lookup m j)
  inc_value_lem m key j none h = ground (arith, inc_absent m key j h, same_key m key j)
  inc_value_lem m key j (some v) h = ground (arith, inc_present m key j v h, same_key m key j)

  -- After `equic_inc_counter` the value of the client's key is one more, modulo 2 ^ 32, if it was
  -- in the map; it is 1 if it was not and the map has room; with no room it stays absent. Every
  -- other key keeps its value.
  pub lookup-equic_inc_counter :
      (m : Map) (client : InAddr) (j : ℕ)
      → lookup (equic_inc_counter bpf m client) j
        ≡ (if be32 client == j then incremented (size m) (lookup m j) else lookup m j)
  unfolding equic_inc_counter
  lookup-equic_inc_counter m client j =
      inc_value_lem m (be32 client) j (lookup m (be32 client)) refl

  dec_value_lem :
      (m : Map) (key j : ℕ) (found : Option ℕ)
      → lookup m key ≡ found
      → lookup (dec_value bpf m key found) j
        ≡ (if key == j then decremented (lookup m j) else lookup m j)
  unfolding dec_value updated
  dec_value_lem m key j none h = ground (arith, same_key m key j)
  dec_value_lem m key j (some v) h =
      let (m', done, _) = bpf.exist_present m key (v - 1) h in
      rw done (ground (arith, bpf.stored m key (v - 1) bpf_exist j done, same_key m key j))

  -- After `equic_dec_counter` the value of the client's key is one less, and stays 0 if it was 0;
  -- a key that is not in the map stays absent. Every other key keeps its value.
  pub lookup-equic_dec_counter :
      (m : Map) (client : InAddr) (j : ℕ)
      → lookup (equic_dec_counter bpf m client) j
        ≡ (if be32 client == j then decremented (lookup m j) else lookup m j)
  unfolding equic_dec_counter
  lookup-equic_dec_counter m client j =
      dec_value_lem m (be32 client) j (lookup m (be32 client)) refl

  -- Decrementing never changes the number of entries, and incrementing never lowers it.
  size-dec_value :
      (m : Map) (key : ℕ) (found : Option ℕ)
      → lookup m key ≡ found
      → size (dec_value bpf m key found) ≡ size m
  unfolding dec_value updated
  size-dec_value m key none h = refl
  size-dec_value m key (some v) h =
      let (m', done, same) = bpf.exist_present m key (v - 1) h in rw done (ground arith)

  pub size-equic_dec_counter :
      (m : Map) (client : InAddr) → size (equic_dec_counter bpf m client) ≡ size m
  unfolding equic_dec_counter
  size-equic_dec_counter m client = size-dec_value m (be32 client) (lookup m (be32 client)) refl

  size-inc_value :
      (m : Map) (key : ℕ) (found : Option ℕ)
      → lookup m key ≡ found
      → (size m ≤ size (inc_value bpf m key found))
        × (size (inc_value bpf m key found) ≤ size m + 1)
  unfolding inc_value updated
  size-inc_value m key (some v) h =
      let (m', done, same) = bpf.exist_present m key (add_one v) h in rw done (omega arith)
  size-inc_value m key none h = elim (dec_lt (size m) max_entries) [
    | yes room ↦ let (m', done, more) = bpf.noexist_room m key 1 h room in rw done (omega arith)
    | no full ↦ rw (bpf.noexist_full m key 1 h (omega arith)) (omega arith)
  ]

  pub size-equic_inc_counter :
      (m : Map) (client : InAddr)
      → (size m ≤ size (equic_inc_counter bpf m client))
        × (size (equic_inc_counter bpf m client) ≤ size m + 1)
  unfolding equic_inc_counter
  size-equic_inc_counter m client = size-inc_value m (be32 client) (lookup m (be32 client)) refl
