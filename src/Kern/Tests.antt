-- ===== src/Kern/Tests.antt =====
-- Packets on which the hook runs.
use equic.Prelude.{ℕ, ◌≤◌, ◌≡◌, ◌↔◌, refl, Option, some, [], ◌∷◌, Bytes, length, replicate, ◌++◌}
use equic.Net.{load_addr, be32}
use equic.Kern.{Action, drop, pass, aborted, udp_quota}
use equic.Kern.Verdict.{source, protocol, Reached, udp_quota_total, udp_quota-drop_iff}

-- A UDP packet from 10.0.0.7 with no payload, and the same cut short.
abbrev datagram : Bytes
datagram = replicate 23 0 ++ ((17 ∷ 0 ∷ 0 ∷ 10 ∷ 0 ∷ 0 ∷ 7 ∷ []) ++ replicate 12 0)

abbrev short : Bytes
short = replicate 23 0 ++ ((17 ∷ 0 ∷ 0 ∷ 10 ∷ 0 ∷ 0 ∷ 7 ∷ []) ++ replicate 4 0)

abbrev counters : ℕ → Option ℕ
counters key = some 5

hook_drops : udp_quota counters datagram ≡ some drop
unfolding udp_quota load_addr
hook_drops = refl

hook_passes : udp_quota (λ key. some 4) datagram ≡ some pass
unfolding udp_quota load_addr
hook_passes = refl

hook_aborts : udp_quota counters short ≡ some aborted
unfolding udp_quota load_addr
hook_aborts = refl

udp_quota_total_example : (a : Action) × (udp_quota counters datagram ≡ some a)
udp_quota_total_example = udp_quota_total counters datagram

udp_quota-drop_iff_example : (udp_quota counters datagram ≡ some drop) ↔ (
    (42 ≤ length datagram) × (protocol datagram ≡ 17) × Reached (counters (be32 (source datagram))))
udp_quota-drop_iff_example = udp_quota-drop_iff counters datagram
