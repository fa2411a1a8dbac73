-- ===== src/Xdp.antt =====
-- The XDP hooks of the network interfaces, which the kernel implements and src/equic_user.c reaches
-- through libbpf: an interface with the documented behaviour of `bpf_set_link_xdp_fd` with the flag
-- XDP_FLAGS_UPDATE_IF_NOEXIST.
pub mod Table
use equic.Prelude.{ℕ, ◌≡◌, ◌≢◌, Option, none, some, ◌==◌, if◌then◌else◌}

pub record Xdp : Type 1 where
  pub State : Type 0
  -- The identifier of the program of an interface, 0 if there is none.
  pub attached : State → ℕ → ℕ
  -- The identifier of the program behind a descriptor.
  pub prog_id : ℕ → ℕ
  -- An interface and a descriptor; `none` is an error, which changes nothing.
  pub attach : State → ℕ → ℕ → Option State
  -- The same with -1 for the descriptor.
  pub detach : State → ℕ → Option State
  pub attach_busy : (s : State) (i fd : ℕ) → attached s i ≢ 0 → attach s i fd ≡ none
  pub attach_stored :
      (s : State) (i fd j : ℕ) {s' : State}
      → attach s i fd ≡ some s'
      → attached s' j ≡ (if i == j then prog_id fd else attached s j)
  pub detach_stored :
      (s : State) (i j : ℕ) {s' : State}
      → detach s i ≡ some s'
      → attached s' j ≡ (if i == j then 0 else attached s j)
