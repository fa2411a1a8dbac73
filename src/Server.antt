-- ===== src/Server.antt =====
-- http_server.c, the connections of the HTTP server: `http_server_on_new_conn`,
-- `http_server_on_conn_closed` and the counter of requests. The functions of lsquic are the events
-- (it calls a handler with a connection and its peer) and the calls that a handler returns.
-- `none` is a fault of the C code. Times are in nanoseconds, and printed text is left out.
pub mod Step
pub mod Invariant
pub mod Totals
pub mod Limit
pub mod Bypass
mod Tests
use equic.Prelude.{
  ℕ, ◌+◌, ◌-◌, ◌/◌, ◌%◌, ◌^◌, Bool, true, ◌&&◌, Option, some, List, [], ◌∷◌, leb, ltb, ◌==◌,
  if◌then◌else◌,
}
use equic.Net.{InAddr, ◌>>=◌}
use equic.BpfMap.{BpfMap}
use equic.Counters.{equic_inc_counter, equic_dec_counter}
use equic.Lsquic.{Call, conn_close}
use equic.UserQuota.{Quotas, add_int, inc_quota, dec_quota, reached_quota_limit}

-- `lsquic_conn_t`: its identity and the address that `lsquic_conn_get_sockaddr` gives.
pub record Conn : Type 0 where
  pub id : ℕ
  pub peer : InAddr

-- `struct server_ctx`, with the globals that its handlers change. `stops` counts the calls of
-- `prog_stop`; `counters` is the map behind `server_ctx.equic`.
pub record Server (Map : Type 0) : Type 0 where
  pub conn_h : Option ℕ
  pub max_conn : ℕ
  pub n_conn : ℕ
  pub n_current_conns : ℕ
  pub has_ebpf : Bool
  pub end_t : ℕ
  pub counters : Map
  pub quotas : Quotas
  pub requests_per_second : ℕ
  pub stopped : Bool
  pub stops : ℕ

-- What happens to a server: a handshake, a close (with whether `prog_flags` has
-- PROG_FLAG_COOLDOWN, and the monotonic time), and a round of the thread `request_counter`.
pub data Event : Type 0 where
  opened : Conn → Event
  closed : Conn → Bool → ℕ → Event
  interval : Event

-- COUNTER_INTERVAL
abbrev pub counter_interval : ℕ
counter_interval = 5

-- unsigned subtraction of one
abbrev pub sub_unsigned : ℕ → ℕ
sub_unsigned n = (n + 2 ^ 32 - 1) % 2 ^ 32

module _ {Map : Type 0} where
  abbrev pub inc_request_counter : Server Map → Server Map
  inc_request_counter s = record s { requests_per_second = add_int s.requests_per_second }

  -- One round of `request_counter`, with the number that it prints.
  pub request_counter : Server Map → Server Map × ℕ
  request_counter s =
      (record s { requests_per_second = 0 }, s.requests_per_second / counter_interval)

  -- `if (!stopped) { stopped = 1; prog_stop(...); }`
  abbrev pub stop : Server Map → Server Map
  stop s = if s.stopped then s else record s { stopped = true; stops = s.stops + 1 }

  -- The connection counts of `http_server_on_conn_closed`.
  pub count_closed : Server Map → Bool → Server Map
  count_closed s cooldown =
      let s1 = record s { n_current_conns = sub_unsigned s.n_current_conns } in
      let s2 = if cooldown && s1.n_current_conns == 0 then stop s1 else s1 in
      if ltb 0 s2.max_conn
      then (let s3 = record s2 { n_conn = add_int s2.n_conn } in
          if leb s3.max_conn s3.n_conn then stop s3 else s3)
      else s2

module _ (bpf : BpfMap) where
  open bpf use {Map}

  pub http_server_on_new_conn : Server Map → Conn → Option (Server Map × List Call)
  http_server_on_new_conn s conn =
      let s1 = record s { conn_h = some conn.id; n_current_conns = add_int s.n_current_conns } in
      if s1.has_ebpf
      then some (
        inc_request_counter (record s1 { counters = equic_inc_counter bpf s1.counters conn.peer }),
        [],
      )
      else do
        full ← reached_quota_limit s1.quotas conn.peer
        if full then some (s1, conn_close conn.id ∷ []) else do
          quotas' ← inc_quota s1.quotas conn.peer
          some (inc_request_counter (record s1 { quotas = quotas' }), [])

  pub http_server_on_conn_closed : Server Map → Conn → Bool → ℕ → Option (Server Map)
  http_server_on_conn_closed s conn cooldown now =
      let s1 = count_closed s cooldown in
      if s1.has_ebpf
      then some (record s1 { counters = equic_dec_counter bpf s1.counters conn.peer; end_t = now })
      else do
        quotas' ← dec_quota s1.quotas conn.peer
        some (record s1 { quotas = quotas'; end_t = now })

  pub step : Server Map → Event → Option (Server Map)
  step s (opened conn) = do (s', calls) ← http_server_on_new_conn s conn; some s'
  step s (closed conn cooldown now) = http_server_on_conn_closed s conn cooldown now
  step s interval = some (request_counter s).0

  pub run : Server Map → List Event → Option (Server Map)
  run s [] = some s
  run s (e ∷ es) = do s' ← step s e; run s' es
