-- ===== src/Server/Tests.antt =====
-- A server with a limit of two connections, and clients of it.
use equic.Prelude.{
  ◌↔◌, ℕ, ◌%◌, ◌^◌, ◌≤◌, ◌≡◌, refl, arith, true, false, none, some, List, [], ◌∷◌, if◌then◌else◌,
}
use equic.Net.{IsAddr}
use equic.Server.{Server, Conn, Event, opened, closed, interval, run}
use equic.BpfMap.Table.{Entries, table}
use equic.Server.Invariant.{run-IsBounded, run-StopsOnce}
use equic.Server.Limit.{run-stopped}
use equic.Server.Bypass.{retries, run-retries}

abbrev client : Conn
client = record { id = 1; peer = record { a = 10; b = 0; c = 0; d = 7 } }

abbrev server : Server Entries
server = record {
  conn_h = none;
  max_conn = 2;
  n_conn = 0;
  n_current_conns = 0;
  has_ebpf = false;
  end_t = 0;
  counters = [];
  quotas = λ octet. 0;
  requests_per_second = 0;
  stopped = false;
  stops = 0;
}

abbrev loaded : Server Entries
loaded = record server { has_ebpf = true }

abbrev crowded : Server Entries
crowded = record server { n_current_conns = 5; quotas = λ octet. 5 }

abbrev events : List Event
events =
    opened client ∷ opened client ∷ interval ∷ closed client false 9 ∷ closed client false 10 ∷ []

client-IsAddr : IsAddr client.peer
client-IsAddr = omega arith

run-IsBounded_example :
    (s' : Server Entries) × (run table server events ≡ some s') × ((k : ℕ) → s'.quotas k ≤ 5)
run-IsBounded_example = run-IsBounded table server events (omega arith) (λ k. omega arith)

run-StopsOnce_example :
    (s' : Server Entries) × (run table server events ≡ some s')
    × (s'.stops ≡ (if s'.stopped then 1 else 0))
run-StopsOnce_example = run-StopsOnce table server events (omega arith) refl refl

run-stopped_example :
    (s' : Server Entries) × (run table server events ≡ some s') × ((s'.stopped ≡ true) ↔ (2 ≤ 2))
run-stopped_example =
    run-stopped table server events (omega arith) (refl, (refl, tt)) (omega arith) refl refl
      (omega arith)

run-retries_example :
    (s' : Server Entries) × (run table crowded (retries 3 client) ≡ some s')
    × (s'.quotas 7 ≡ 5)
    × (s'.n_current_conns % 2 ^ 32 ≡ 8)
    × (s'.requests_per_second % 2 ^ 32 ≡ 3)
run-retries_example = run-retries table 3 crowded client (omega arith) refl refl
