-- ===== src/Loader/Tests.antt =====
-- The interface eth0 has index 3, and the object has the descriptors 7 and 8.
use equic.Prelude.{ℕ, ◌≡◌, refl, arith, true, some, ◌==◌, if◌then◌else◌}
use equic.Xdp.Table.{Programs, table}
use equic.Loader.{Results, exited, Process, main}
use equic.Loader.Start.{Ends, main_lem}
use equic.Loader.Signals.{after_link, interrupted, interrupted_lem}

abbrev results : Results
results = record {
  if_nametoindex = λ if_name. 3;
  bpf_prog_load_xattr = λ path. some (7, some 8);
  info_ok = true;
}

-- No interface has a program.
abbrev no_programs : Programs
no_programs = λ i. 0

abbrev loading : Process table
loading = record {
  equic = record { if_index = 3; prog_fd = 7; counters_map_fd = 8 };
  equic_ifindex = 3;
  equic_prog_id = 0;
  xdp = no_programs;
}

main_lem_example : Ends table results no_programs (main table results loading)
main_lem_example = main_lem table results loading

interrupted_lem_example :
    (p' : Process table) × (interrupted table results true after_link loading ≡ exited 0 p')
    × ((j : ℕ) → p'.xdp j ≡ (if 3 == j then 8 else 0))
interrupted_lem_example =
    interrupted_lem table results loading (λ j. if 3 == j then 8 else 0) refl refl refl refl
      (omega arith) refl (λ s'. ((λ j. if 3 == j then 0 else s' j), refl)) true after_link
