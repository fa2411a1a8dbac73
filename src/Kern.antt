-- ===== src/Kern.antt =====
-- src/equic_kern.c: the XDP hook `udp_quota`, which drops the UDP packets of a source address that
-- has reached its quota of connections. The packet is the bytes from `ctx->data` to `ctx->data_end`;
-- the `counters` map enters as its lookup function.
pub mod Verdict
mod Tests
use equic.Prelude.{
  ℕ, ◌+◌, ◌^◌, Bool, Option, none, some, Bytes, ◌&&◌, length, get_elem?, ltb, leb, ◌==◌,
  if◌then◌else◌,
}
use equic.Net.{
  size_of_ethhdr, size_of_iphdr, size_of_udphdr, ipproto_udp, InAddr, be32, load_addr, ◌>>=◌,
}

-- `enum xdp_action`, the values that the hook returns.
pub data Action : Type 0 where
  aborted drop pass : Action

-- QUIC_QUOTA_LIMIT
abbrev pub quic_quota_limit : ℕ
quic_quota_limit = 5

-- max_entries of the map `counters`
abbrev pub max_entries : ℕ
max_entries = 1024

-- `*curr_value >= QUIC_QUOTA_LIMIT` on a signed 32-bit value, given by its bits.
abbrev pub quota_reached : ℕ → Bool
quota_reached v = leb quic_quota_limit v && ltb v (2 ^ 31)

-- The test of the looked-up counter.
unfoldable pub on_counter : Option ℕ → Action
on_counter none = pass
on_counter (some curr_value) = if quota_reached curr_value then drop else pass

-- `none` is a read outside the packet.
pub udp_quota : (ℕ → Option ℕ) → Bytes → Option Action
unfolding on_counter
udp_quota lookup packet =
    let ip_begin = size_of_ethhdr in
    let ip_end = ip_begin + size_of_iphdr in
    if ltb (length packet) ip_end then some aborted else do
      saddr ← load_addr packet (ip_begin + 12)
      protocol ← get_elem? packet (ip_begin + 9)
      if protocol == ipproto_udp
          then (if ltb (length packet) (ip_end + size_of_udphdr)
              then some aborted
              else some (on_counter (lookup (be32 saddr))))
          else some pass
