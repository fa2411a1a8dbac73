-- ===== src/EchoServer.antt =====
-- echo_server.c, the connections of the echo server: `echo_server_on_new_conn` and
-- `echo_server_on_conn_closed`. The address that `calloc` returns for a connection context is an
-- argument. The context is read once more after `free`, which C does not define: whether the memory
-- still holds the pointer to the server is an argument too, and the server faults if it does not.
pub mod Histories
pub mod Start
mod Tests
use equic.Prelude.{
  ℕ, Bool, Option, none, some, suc, ◌+◌, ◌-◌, ◌%◌, ◌^◌, List, [], ◌∷◌, ◌++◌, ◌==◌, if◌then◌else◌,
}
use equic.Net.{InAddr, ◌>>=◌}
use equic.BpfMap.{BpfMap}
use equic.Counters.{equic_inc_counter, equic_dec_counter}
use equic.Echo.{ConnCtx}

-- `struct echo_server_ctx`. `stops` counts the calls of `prog_stop`; `counters` is the map behind
-- `equic`.
pub record EchoServer (Map : Type 0) : Type 0 where
  pub conn_ctxs : List ConnCtx
  pub n_conn : ℕ
  pub stops : ℕ
  pub counters : Map

-- TAILQ_REMOVE
pub remove : List ConnCtx → ℕ → List ConnCtx
remove [] handle = []
remove (conn_h ∷ rest) handle =
    if conn_h.handle == handle then rest else conn_h ∷ remove rest handle

-- A connection opens or closes, with its context and the address of the client; a close with whether
-- the freed context still holds its pointer to the server.
pub data Event : Type 0 where
  opened : ConnCtx → InAddr → Event
  closed : ConnCtx → InAddr → Bool → Event

-- The count of the option -n.
count_down : {Map : Type 0} → EchoServer Map → EchoServer Map
count_down s =
    if s.n_conn == 0
    then s
    else (let s' = record s { n_conn = (s.n_conn + 2 ^ 32 - 1) % 2 ^ 32 } in
        if s'.n_conn == 0 then record s' { stops = s'.stops + 1 } else s')

module _ (bpf : BpfMap) where
  open bpf use {Map}

  pub echo_server_on_new_conn : EchoServer Map → ConnCtx → InAddr → EchoServer Map
  echo_server_on_new_conn s conn_h peer = record s {
    conn_ctxs = s.conn_ctxs ++ (conn_h ∷ []);
    counters = equic_inc_counter bpf s.counters peer;
  }

  -- `none` is a fault: the counter of the client is to be reached by way of the freed context.
  pub echo_server_on_conn_closed :
      EchoServer Map → ConnCtx → InAddr → Bool → Option (EchoServer Map)
  unfolding count_down
  echo_server_on_conn_closed s conn_h peer still_there =
      let s1 = count_down s in
      let s2 = record s1 { conn_ctxs = remove s1.conn_ctxs conn_h.handle } in
      if still_there
      then some (record s2 { counters = equic_dec_counter bpf s2.counters peer })
      else none

  pub step : EchoServer Map → Event → Option (EchoServer Map)
  unfolding echo_server_on_new_conn echo_server_on_conn_closed
  step s (opened conn_h peer) = some (echo_server_on_new_conn s conn_h peer)
  step s (closed conn_h peer still_there) = echo_server_on_conn_closed s conn_h peer still_there

  pub run : EchoServer Map → List Event → Option (EchoServer Map)
  unfolding step
  run s [] = some s
  run s (e ∷ es) = do s' ← step s e; run s' es
