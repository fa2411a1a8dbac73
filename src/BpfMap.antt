-- ===== src/BpfMap.antt =====
-- The eBPF hash map `counters`, which the kernel implements and src/equic_user.c and
-- src/equic_kern.c only call: an interface with the documented behaviour of
-- `bpf_map_lookup_elem` and `bpf_map_update_elem`.
pub mod Table
use equic.Prelude.{ℕ, ◌+◌, ◌≤◌, ◌<◌, ◌≡◌, Option, none, some, ◌==◌, if◌then◌else◌}
use equic.Kern.{max_entries}

-- The flags BPF_EXIST (change a key that is there) and BPF_NOEXIST (create one that is not).
pub data Flag : Type 0 where
  bpf_exist bpf_noexist : Flag

pub record BpfMap : Type 1 where
  pub Map : Type 0
  pub lookup : Map → ℕ → Option ℕ
  -- `none` is the result -1, which leaves the map alone.
  pub update : Map → ℕ → ℕ → Flag → Option Map
  pub size : Map → ℕ
  pub stored :
      (m : Map) (k v : ℕ) (f : Flag) (j : ℕ) {m' : Map}
      → update m k v f ≡ some m'
      → lookup m' j ≡ (if k == j then some v else lookup m j)
  pub exist_present :
      (m : Map) (k v : ℕ) {w : ℕ}
      → lookup m k ≡ some w
      → (m' : Map) × (update m k v bpf_exist ≡ some m') × (size m' ≡ size m)
  pub exist_absent : (m : Map) (k v : ℕ) → lookup m k ≡ none → update m k v bpf_exist ≡ none
  pub noexist_present :
      (m : Map) (k v : ℕ) {w : ℕ} → lookup m k ≡ some w → update m k v bpf_noexist ≡ none
  pub noexist_room :
      (m : Map) (k v : ℕ)
      → lookup m k ≡ none
      → size m < max_entries
      → (m' : Map) × (update m k v bpf_noexist ≡ some m') × (size m' ≡ size m + 1)
  pub noexist_full :
      (m : Map) (k v : ℕ)
      → lookup m k ≡ none
      → max_entries ≤ size m
      → update m k v bpf_noexist ≡ none
