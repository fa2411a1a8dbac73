-- ===== src/Counters/Tests.antt =====
-- Histories of connections on which the counters run.
use equic.Prelude.{◌≡◌, refl, arith, some, List, [], ◌∷◌, Bytes, replicate, ◌++◌}
use equic.Net.{InAddr, be32}
use equic.BpfMap.Table.{Entries, find, table}
use equic.Counters.{Event, opened, closed, run, equic_inc_counter, equic_dec_counter}
use equic.Counters.History.{tally, Counts, size-Fits, run-Counts}

abbrev client : InAddr
client = record { a = 10; b = 0; c = 0; d = 7 }

abbrev other : InAddr
other = record { a = 10; b = 0; c = 0; d = 8 }

abbrev datagram : Bytes
datagram = replicate 23 0 ++ ((17 ∷ 0 ∷ 0 ∷ 10 ∷ 0 ∷ 0 ∷ 7 ∷ []) ++ replicate 12 0)

abbrev history : List Event
history =
    opened client
    ∷ opened client
    ∷ opened client
    ∷ opened other
    ∷ opened client
    ∷ opened client
    ∷ opened client
    ∷ closed client
    ∷ []

history_counted : find (run table [] history) (be32 client) ≡ some 5
unfolding run be32 equic_inc_counter equic_dec_counter
history_counted = refl

run-Counts_example : Counts table (run table [] history) (tally (λ k. 0) history)
run-Counts_example =
    run-Counts table [] (λ k. 0) history (λ k. refl) (size-Fits table [] history (omega arith))
      (λ k. omega arith)

abbrev full : Entries
full = replicate 1024 (1, 5)
