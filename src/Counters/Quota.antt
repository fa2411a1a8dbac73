-- ===== src/Counters/Quota.antt =====
-- The two halves together: what src/equic_user.c counts decides what src/equic_kern.c drops.
use equic.Prelude.{ℕ, ◌+◌, ◌≤◌, ◌<◌, ◌^◌, ◌≡◌, ◌↔◌, arith, Option, none, some, List, Bytes, length}
use equic.Kern.{quic_quota_limit, drop, udp_quota}
use equic.Kern.Verdict.{source, protocol, Reached, udp_quota-drop_iff}
use equic.Net.{be32, ipproto_udp}
use equic.BpfMap.{BpfMap}
use equic.Counters.{Event, run}
use equic.Counters.History.{Tally, tally, value, Counts, Fits, run-Counts, tally-le-add-length}

Reached-value :
    (found : Option ℕ) → value found < 2 ^ 31 → Reached found ↔ (quic_quota_limit ≤ value found)
Reached-value none h = ground arith
Reached-value (some v) h = ground arith

module _ (bpf : BpfMap) where
  open bpf use {Map, lookup}

  -- If the map stands for a tally of open connections, every client of a history of opens and
  -- closes finds room in it, and no counter can reach 2 ^ 31, then after the history the hook drops
  -- a packet exactly when it is a whole UDP packet whose source address has at least
  -- QUIC_QUOTA_LIMIT connections open.
  pub run-drop_iff :
      (m : Map) (t : Tally) (es : List Event) (p : Bytes)
      → Counts bpf m t
      → Fits bpf m es
      → ((k : ℕ) → t k + length es < 2 ^ 31)
      → (udp_quota (lookup (run bpf m es)) p ≡ some drop) ↔ (
          (42 ≤ length p)
          × (protocol p ≡ ipproto_udp)
          × (quic_quota_limit ≤ tally t es (be32 (source p))))
  run-drop_iff m t es p h fits bound = ground (
    arith,
    udp_quota-drop_iff (lookup (run bpf m es)) p,
    Reached-value (lookup (run bpf m es) (be32 (source p))),
    run-Counts bpf m t es h fits (λ (k : ℕ). omega (arith, bound k)) (be32 (source p)),
    tally-le-add-length (be32 (source p)) t es,
    bound (be32 (source p)),
  )
