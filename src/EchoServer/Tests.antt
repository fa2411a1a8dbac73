-- ===== src/EchoServer/Tests.antt =====
-- An echo server that stops after two connections.
use equic.Prelude.{ℕ, ◌≡◌, refl, arith, true, false, Option, none, some, List, [], ◌∷◌}
use equic.Net.{InAddr}
use equic.BpfMap.Table.{Entries, table}
use equic.Echo.{ConnCtx}
use equic.EchoServer.{EchoServer, Event, opened, closed, remove, count_down, run}
use equic.EchoServer.Histories.{Leaves, run-Leaves}

abbrev server : EchoServer Entries
server = record { conn_ctxs = []; n_conn = 2; stops = 0; counters = [] }

abbrev client : InAddr
client = record { a = 10; b = 0; c = 0; d = 7 }

abbrev first : ConnCtx
first = record { handle = 100; conn = 1 }

abbrev second : ConnCtx
second = record { handle = 200; conn = 2 }

abbrev history : List Event
history =
    opened first client
    ∷ opened second client
    ∷ closed first client true
    ∷ closed second client true
    ∷ []

-- The list of contexts, and the calls of `prog_stop`, if the server has not faulted.
abbrev ends : Option (EchoServer Entries) → Option (List ConnCtx × ℕ)
ends none = none
ends (some s) = some (s.conn_ctxs, s.stops)

all_closed : ends (run table server history) ≡ some ([], 1)
unfolding run remove count_down
all_closed = refl

reused_context :
    ends (run table server (opened first client ∷ closed first client false ∷ [])) ≡ none
unfolding run
reused_context = refl

run-Leaves_example : Leaves table server history (run table server history)
run-Leaves_example = run-Leaves table server history (omega arith) (refl, (refl, tt))
