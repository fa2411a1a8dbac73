-- ===== src/Kern/Verdict.antt =====
-- What `udp_quota` returns, by the bytes of the packet and the counter of its source.
use equic.Prelude.{
  ℕ, ◌≤◌, ◌<◌, ◌^◌, ◌≡◌, ◌↔◌, ◌⊎◌, Option, none, some, arith, Bytes, length, get_or,
  get_elem?-eq-get_or, if◌then◌else◌, ltb, ◌==◌,
}
use equic.Net.{InAddr, be32, load_addr, ipproto_udp}
use equic.Kern.{Action, aborted, drop, pass, quic_quota_limit, on_counter, udp_quota}

-- The source address and the protocol, for a packet that holds them.
abbrev pub source : Bytes → InAddr
source p = record { a = get_or p 26 0; b = get_or p 27 0; c = get_or p 28 0; d = get_or p 29 0 }

abbrev pub protocol : Bytes → ℕ
protocol p = get_or p 23 0

load_addr-source : (p : Bytes) → 34 ≤ length p → load_addr p 26 ≡ some (source p)
unfolding load_addr
load_addr-source p h = ground (
  arith,
  get_elem?-eq-get_or p 26 0,
  get_elem?-eq-get_or p 27 0,
  get_elem?-eq-get_or p 28 0,
  get_elem?-eq-get_or p 29 0,
)

-- A counter that has reached the quota, as a signed 32-bit value.
abbrev pub Reached : Option ℕ → Type 0
Reached none = ⊥
Reached (some v) = (quic_quota_limit ≤ v) × (v < 2 ^ 31)

-- `udp_quota` once the loads are known to succeed.
unfoldable pub verdict : Option ℕ → Bytes → Action
verdict counter p =
    if ltb (length p) 34
    then aborted
    else if protocol p == ipproto_udp
    then (if ltb (length p) 42 then aborted else on_counter counter)
    else pass

module _ (lookup : ℕ → Option ℕ) (p : Bytes) where
  pub udp_quota-verdict : udp_quota lookup p ≡ some (verdict (lookup (be32 (source p))) p)
  unfolding udp_quota verdict
  udp_quota-verdict = ground (arith, load_addr-source p, get_elem?-eq-get_or p 23 0)

  -- For every packet and every map of counters the hook returns a verdict: it never reads outside
  -- the packet.
  pub udp_quota_total : (a : Action) × (udp_quota lookup p ≡ some a)
  udp_quota_total = (verdict (lookup (be32 (source p))) p, udp_quota-verdict)

  -- The hook drops a packet exactly when it holds the Ethernet, IPv4 and UDP headers, its protocol
  -- field is UDP, and the counter of its source address is in the map and, as a signed 32-bit
  -- value, at least the quota.
  pub udp_quota-drop_iff :
      (udp_quota lookup p ≡ some drop)
      ↔ ((42 ≤ length p) × (protocol p ≡ ipproto_udp) × Reached (lookup (be32 (source p))))
  unfolding verdict on_counter
  udp_quota-drop_iff = rw udp_quota-verdict (drop_case (lookup (be32 (source p))))
    where
      drop_case :
          (c : Option ℕ)
          → (◌≡◌ {A = Option Action} (some (verdict c p)) (some drop))
            ↔ ((42 ≤ length p) × (protocol p ≡ ipproto_udp) × Reached c)
      drop_case none = ground arith
      drop_case (some v) = ground arith

  -- The hook aborts a packet exactly when it is too short for the Ethernet and IPv4 headers, or its
  -- protocol field is UDP and it is too short for the UDP header.
  pub udp_quota-aborted_iff :
      (udp_quota lookup p ≡ some aborted)
      ↔ ((length p < 34) ⊎ (protocol p ≡ ipproto_udp) × (length p < 42))
  unfolding verdict on_counter
  udp_quota-aborted_iff = rw udp_quota-verdict (aborted_case (lookup (be32 (source p))))
    where
      aborted_case :
          (c : Option ℕ)
          → (◌≡◌ {A = Option Action} (some (verdict c p)) (some aborted))
            ↔ ((length p < 34) ⊎ (protocol p ≡ ipproto_udp) × (length p < 42))
      aborted_case none = ground arith
      aborted_case (some v) = ground arith
