-- ===== src/Network/Tests.antt =====
-- Six handshakes of one client, a packet of another, and a close.
use equic.Prelude.{
  ℕ, ◌+◌, ◌<◌, ◌^◌, ◌==◌, if◌then◌else◌, ◌≤◌, ◌≡◌, refl, arith, true, false, some, List, [], ◌∷◌,
  ◌++◌, Bytes, replicate, none,
}
use equic.Net.{be32}
use equic.BpfMap.Table.{Entries, find, table}
use equic.Kern.{quic_quota_limit, drop}
use equic.Counters.History.{Tally, value, size-Fits, tally}
use equic.Server.{Server, Conn, closed, interval}
use equic.Network.{Happening, packet, event, handshake, run}
use equic.Network.Verdicts.{asked, verdicts, events_of, Ends, run-verdicts}
use equic.Network.Quota.{run-IsWithin, run-cut_off}

-- A datagram from 10.0.7.d, the last byte given.
abbrev datagram : ℕ → Bytes
datagram d = replicate 23 0 ++ ((17 ∷ 0 ∷ 0 ∷ 10 ∷ 0 ∷ 7 ∷ d ∷ []) ++ replicate 12 0)

abbrev server : Server Entries
server = record {
  conn_h = none;
  max_conn = 0;
  n_conn = 0;
  n_current_conns = 0;
  has_ebpf = true;
  end_t = 0;
  counters = [];
  quotas = λ octet. 0;
  requests_per_second = 0;
  stopped = false;
  stops = 0;
}

abbrev client : Conn
client = record { id = 1; peer = record { a = 10; b = 0; c = 7; d = 1 } }

abbrev happenings : List Happening
happenings =
    handshake 1 (datagram 1)
    ∷ handshake 2 (datagram 1)
    ∷ packet (datagram 2)
    ∷ handshake 3 (datagram 1)
    ∷ handshake 4 (datagram 1)
    ∷ handshake 5 (datagram 1)
    ∷ handshake 6 (datagram 1)
    ∷ event (closed client false 9)
    ∷ []

abbrev nobody : Tally
nobody = λ k. 0

run-verdicts_example :
    Ends table
      (run table server happenings)
      (verdicts nobody happenings)
      (tally nobody (events_of nobody happenings))
unfolding events_of asked be32
run-verdicts_example =
    run-verdicts table happenings server nobody
      (
        refl,
        (λ k. refl),
        size-Fits table [] (events_of nobody happenings) (omega arith),
        λ k. omega arith,
      )
      (omega arith)

run-IsWithin_example :
    (s' : Server Entries) × (run table server happenings ≡ some (verdicts nobody happenings, s'))
    × ((k : ℕ) → value (find s'.counters k) ≤ quic_quota_limit)
unfolding events_of asked be32
run-IsWithin_example =
    run-IsWithin table happenings server nobody
      (
        refl,
        (λ k. refl),
        size-Fits table [] (events_of nobody happenings) (omega arith),
        λ k. omega arith,
      )
      (omega arith) (omega arith) (λ k. omega arith)

-- The client has five connections open.
abbrev crowded : Server Entries
crowded = record server { counters = (be32 client.peer, 5) ∷ [] }

abbrev five : Tally
five = λ k. if be32 client.peer == k then 5 else 0

five-Counts : (k : ℕ) → value (find crowded.counters k) ≡ five k
five-Counts k = ground arith

five-small : (k : ℕ) → five k + 0 < 2 ^ 31
five-small k = ground arith

run-cut_off_example :
    (s' : Server Entries) × (run table crowded
        (packet (datagram 2) ∷ event interval ∷ packet (datagram 1) ∷ [])
      ≡ some (verdicts five (packet (datagram 2) ∷ event interval ∷ []) ++ (drop ∷ []), s'))
unfolding events_of be32
run-cut_off_example =
    run-cut_off table (packet (datagram 2) ∷ event interval ∷ []) crowded five (datagram 1)
      (refl, five-Counts, tt, five-small) (omega arith) (omega arith) tt (omega arith, refl)
