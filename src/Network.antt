-- ===== src/Network.antt =====
-- The program as a whole: src/equic_kern.c at the network interface, and http_server.c with the eBPF
-- program loaded, over one map of counters. Packets and the events of the server come in any order.
pub mod Verdicts
pub mod Quota
mod Tests
use equic.Prelude.{ℕ, Option, some, List, [], ◌∷◌, Bytes}
use equic.Net.{◌>>=◌}
use equic.BpfMap.{BpfMap}
use equic.Kern.{Action, aborted, drop, pass, udp_quota}
use equic.Kern.Verdict.{source}
use equic.Server.{Server, Event, opened, step}

-- A packet at the interface; an event of the server; and a packet that, if the hook lets it pass,
-- completes the handshake of a connection with this identity.
pub data Happening : Type 0 where
  packet : Bytes → Happening
  event : Event → Happening
  handshake : ℕ → Bytes → Happening

module _ (bpf : BpfMap) where
  open bpf use {Map, lookup}

  admit : Server Map → ℕ → Bytes → Action → Option (Server Map)
  admit s id p pass = step bpf s (opened (record { id = id; peer = source p }))
  admit s id p _ = some s

  -- What the hook does with each packet, and the server at the end. `none` is a fault.
  pub run : Server Map → List Happening → Option (List Action × Server Map)
  unfolding admit
  run s [] = some ([], s)
  run s (packet p ∷ hs) = do
    action ← udp_quota (lookup s.counters) p
    (actions, s') ← run s hs
    some (action ∷ actions, s')
  run s (event e ∷ hs) = do s1 ← step bpf s e; run s1 hs
  run s (handshake id p ∷ hs) = do
    action ← udp_quota (lookup s.counters) p
    s1 ← admit s id p action
    (actions, s') ← run s1 hs
    some (action ∷ actions, s')
