-- ===== src/Server/Bypass.antt =====
-- `http_server_on_conn_closed` lowers the quota of a connection that `http_server_on_new_conn`
-- refused, and so never raised.
use equic.Prelude.{ℕ, zero, suc, ◌+◌, ◌%◌, ◌^◌, ◌≡◌, arith, false, some, List, [], ◌∷◌}
use equic.Net.{IsAddr}
use equic.BpfMap.{BpfMap}
use equic.UserQuota.{quota_limit, add_int}
use equic.Server.{Server, Conn, Event, opened, closed, count_closed, run}
use equic.Server.Step.{AreEvents, advance, advance_all, run-advance_all}

-- A client at its limit connects and is refused, the refused connection closes, and the client
-- connects again.
abbrev retry : Conn → List Event → List Event
retry conn rest = opened conn ∷ closed conn false 0 ∷ opened conn ∷ rest

abbrev pub retries : ℕ → Conn → List Event
retries zero conn = []
retries (suc k) conn = retry conn (retries k conn)

module _ (bpf : BpfMap) where
  open bpf use {Map}

  AtLimit : Server Map → Conn → Type 0
  AtLimit s conn = (s.has_ebpf ≡ false) × (s.quotas conn.peer.d ≡ quota_limit)

  abbrev retried : Server Map → Conn → Server Map
  retried s conn =
      advance bpf (advance bpf (advance bpf s (opened conn)) (closed conn false 0)) (opened conn)

  retried_lem :
      (s : Server Map) (conn : Conn)
      → AtLimit s conn
      → AtLimit (retried s conn) conn
        × ((retried s conn).n_current_conns % 2 ^ 32 ≡ (s.n_current_conns + 1) % 2 ^ 32)
        × ((retried s conn).requests_per_second ≡ add_int s.requests_per_second)
  unfolding AtLimit advance count_closed
  retried_lem s conn h = ground arith

  retries-advance_all :
      (k : ℕ) (s : Server Map) (conn : Conn)
      → AtLimit s conn
      → let s' = advance_all bpf s (retries k conn) in
        AtLimit s' conn
        × (s'.n_current_conns % 2 ^ 32 ≡ (s.n_current_conns + k) % 2 ^ 32)
        × (s'.requests_per_second % 2 ^ 32 ≡ (s.requests_per_second + k) % 2 ^ 32)
  unfolding advance_all
  retries-advance_all zero s conn h = (h, ground arith, ground arith)
  retries-advance_all (suc k) s conn h =
      let (h1, n1, r1) = retried_lem s conn h in
      let (h2, n2, r2) = retries-advance_all k (retried s conn) conn h1 in
      (h2, omega arith, omega arith)

  AreEvents-retries : (k : ℕ) (conn : Conn) → IsAddr conn.peer → AreEvents (retries k conn)
  AreEvents-retries zero conn h = tt
  AreEvents-retries (suc k) conn h = (h, (h, (h, AreEvents-retries k conn h)))

  -- With no eBPF program, a client whose quota stands at QUOTA_LIMIT gets `k` more connections
  -- admitted by `k` rounds of a connection that is refused, the close of that one, and another
  -- connection: afterwards, modulo 2 ^ 32, `k` more connections are current and `k` more were
  -- counted as requests, and the quota still stands at its limit.
  pub run-retries :
      (k : ℕ) (s : Server Map) (conn : Conn)
      → IsAddr conn.peer
      → s.has_ebpf ≡ false
      → s.quotas conn.peer.d ≡ quota_limit
      → (s' : Server Map) × (run bpf s (retries k conn) ≡ some s')
        × (s'.quotas conn.peer.d ≡ quota_limit)
        × (s'.n_current_conns % 2 ^ 32 ≡ (s.n_current_conns + k) % 2 ^ 32)
        × (s'.requests_per_second % 2 ^ 32 ≡ (s.requests_per_second + k) % 2 ^ 32)
  unfolding AtLimit
  run-retries k s conn peer off full =
      let (h, n, r) = retries-advance_all k s conn (off, full) in
      (
        advance_all bpf s (retries k conn),
        run-advance_all bpf s (retries k conn) (AreEvents-retries k conn peer),
        h.1,
        n,
        r,
      )
