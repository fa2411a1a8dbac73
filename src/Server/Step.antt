-- ===== src/Server/Step.antt =====
-- Each handler of the server on each branch, for connections from IPv4 addresses.
use equic.Prelude.{ℕ, ◌-◌, ◌≡◌, refl, arith, Bool, some, List, [], ◌∷◌, if◌then◌else◌}
use equic.Net.{IsAddr}
use equic.BpfMap.{BpfMap}
use equic.Counters.{equic_inc_counter, equic_dec_counter}
use equic.Lsquic.{conn_close}
use equic.UserQuota.{
  add_int, write, at_limit, is_positive, inc_quota_lem, dec_quota_lem, reached_quota_limit_lem,
}
use equic.Server.{
  Server, Conn, Event, opened, closed, interval, inc_request_counter, request_counter, count_closed,
  http_server_on_new_conn, http_server_on_conn_closed, step, run,
}

-- The address of each connection is an IPv4 address.
abbrev pub IsEvent : Event → Type 0
IsEvent (opened conn) = IsAddr conn.peer
IsEvent (closed conn cooldown now) = IsAddr conn.peer
IsEvent interval = Unit

abbrev pub AreEvents : List Event → Type 0
AreEvents [] = Unit
AreEvents (e ∷ es) = IsEvent e × AreEvents es

module _ (bpf : BpfMap) where
  open bpf use {Map}

  abbrev pub arrived : Server Map → Conn → Server Map
  arrived s conn = record s { conn_h = some conn.id; n_current_conns = add_int s.n_current_conns }

  -- A connection that the quota of user space lets in.
  abbrev pub admitted : Server Map → Conn → Server Map
  admitted s conn =
      let quotas' = write s.quotas conn.peer.d (add_int (s.quotas conn.peer.d)) in
      inc_request_counter (record (arrived s conn) { quotas = quotas' })

  abbrev pub counted : Server Map → Conn → Server Map
  counted s conn =
      let counters' = equic_inc_counter bpf s.counters conn.peer in
      inc_request_counter (record (arrived s conn) { counters = counters' })

  -- For a peer with an IPv4 address: with the eBPF program loaded, a new connection is counted in
  -- the map. Otherwise it is closed at once, and not counted, if the quota of its last octet is
  -- reached, and is counted there if not.
  pub http_server_on_new_conn_lem :
      (s : Server Map) (conn : Conn)
      → IsAddr conn.peer
      → http_server_on_new_conn bpf s conn
        ≡ some (
            if s.has_ebpf
            then (counted s conn, [])
            else if at_limit (s.quotas conn.peer.d)
            then (arrived s conn, conn_close conn.id ∷ [])
            else (admitted s conn, []))
  unfolding http_server_on_new_conn
  http_server_on_new_conn_lem s conn h =
      ground
        (arith, reached_quota_limit_lem s.quotas conn.peer h, inc_quota_lem s.quotas conn.peer h)

  abbrev pub released : Server Map → Conn → ℕ → Server Map
  released s conn now =
      let q = s.quotas conn.peer.d in
      let quotas' = if is_positive q then write s.quotas conn.peer.d (q - 1) else s.quotas in
      if s.has_ebpf
      then record s { counters = equic_dec_counter bpf s.counters conn.peer; end_t = now }
      else record s { quotas = quotas'; end_t = now }

  http_server_on_conn_closed_lem :
      (s : Server Map) (conn : Conn) (cooldown : Bool) (now : ℕ)
      → IsAddr conn.peer
      → http_server_on_conn_closed bpf s conn cooldown now
        ≡ some (released (count_closed s cooldown) conn now)
  unfolding http_server_on_conn_closed
  http_server_on_conn_closed_lem s conn cooldown now h =
      ground (arith, dec_quota_lem (count_closed s cooldown).quotas conn.peer h)

  -- The server after an event. It is defined on every server, so the handlers do not fault.
  unfoldable pub advance : Server Map → Event → Server Map
  advance s (opened conn) =
      if s.has_ebpf
      then counted s conn
      else if at_limit (s.quotas conn.peer.d)
      then arrived s conn
      else admitted s conn
  advance s (closed conn cooldown now) = released (count_closed s cooldown) conn now
  advance s interval = record s { requests_per_second = 0 }

  pub step-advance : (s : Server Map) (e : Event) → IsEvent e → step bpf s e ≡ some (advance s e)
  unfolding step advance request_counter
  step-advance s (opened conn) h = ground (arith, http_server_on_new_conn_lem s conn h)
  step-advance s (closed conn cooldown now) h = http_server_on_conn_closed_lem s conn cooldown now h
  step-advance s interval h = refl

  unfoldable pub advance_all : Server Map → List Event → Server Map
  advance_all s [] = s
  advance_all s (e ∷ es) = advance_all (advance s e) es

  pub run-advance_all :
      (s : Server Map) (es : List Event) → AreEvents es → run bpf s es ≡ some (advance_all s es)
  unfolding run advance_all
  run-advance_all s [] h = refl
  run-advance_all s (e ∷ es) h = rw (step-advance s e h.0) (run-advance_all (advance s e) es h.1)

  -- An invariant of `advance` holds after every run.
  pub run_inv {ℓ} :
      (P : Server Map → Type ℓ)
      → ((s : Server Map) (e : Event) → P s → P (advance s e))
      → (s : Server Map) (es : List Event) → AreEvents es
      → P s
      → (s' : Server Map) × (run bpf s es ≡ some s') × P s'
  unfolding advance_all
  run_inv P keep s es valid h = (advance_all s es, run-advance_all s es valid, all s es h)
    where
      all : (s : Server Map) (es : List Event) → P s → P (advance_all s es)
      all s [] h = h
      all s (e ∷ es) h = all (advance s e) es (keep s e h)
