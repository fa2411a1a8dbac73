-- ===== src/Server/Invariant.antt =====
-- What holds of the server after any events.
use equic.Prelude.{ℕ, ◌≤◌, ◌≡◌, arith, Bool, false, some, List, if◌then◌else◌}
use equic.BpfMap.{BpfMap}
use equic.UserQuota.{quota_limit}
use equic.Server.{Server, Conn, Event, opened, closed, interval, count_closed, run}
use equic.Server.Step.{AreEvents, released, advance, run_inv}

module _ (bpf : BpfMap) where
  open bpf use {Map}

  -- No quota is above its limit.
  abbrev pub IsBounded : Server Map → Type 0
  IsBounded s = (k : ℕ) → s.quotas k ≤ quota_limit

  -- `prog_stop` was called once if `stopped` is set, and not at all otherwise.
  abbrev pub StopsOnce : Server Map → Type 0
  StopsOnce s = s.stops ≡ (if s.stopped then 1 else 0)

  quotas-count_closed :
      (s : Server Map) (cooldown : Bool) → (count_closed s cooldown).quotas ≡ s.quotas
  unfolding count_closed
  quotas-count_closed s cooldown = ground arith

  released-IsBounded :
      (s : Server Map) (conn : Conn) (now : ℕ) → IsBounded s → IsBounded (released bpf s conn now)
  released-IsBounded s conn now h k = ground (arith, h k, h conn.peer.d)

  advance-IsBounded : (s : Server Map) (e : Event) → IsBounded s → IsBounded (advance bpf s e)
  unfolding advance
  advance-IsBounded s (opened conn) h k = ground (arith, h k, h conn.peer.d)
  advance-IsBounded s (closed conn cooldown now) h k = ground (
    arith,
    quotas-count_closed s cooldown,
    released-IsBounded (count_closed s cooldown) conn now
        (λ (j : ℕ). rw (quotas-count_closed s cooldown) (h j)) k,
  )
  advance-IsBounded s interval h k = h k

  advance-StopsOnce : (s : Server Map) (e : Event) → StopsOnce s → StopsOnce (advance bpf s e)
  unfolding advance count_closed
  advance-StopsOnce s (opened conn) h = ground arith
  advance-StopsOnce s (closed conn cooldown now) h = ground arith
  advance-StopsOnce s interval h = h

  -- From a server with every quota at most QUOTA_LIMIT, any events of IPv4 peers run without a
  -- fault, and leave every quota at most QUOTA_LIMIT.
  pub run-IsBounded :
      (s : Server Map) (es : List Event)
      → AreEvents es
      → IsBounded s
      → (s' : Server Map) × (run bpf s es ≡ some s') × IsBounded s'
  run-IsBounded = run_inv bpf IsBounded advance-IsBounded

  -- From a server that has not been stopped, any events of IPv4 peers run without a fault, and
  -- `prog_stop` is called at most once, and is called exactly if `stopped` is set.
  pub run-StopsOnce :
      (s : Server Map) (es : List Event)
      → AreEvents es
      → s.stopped ≡ false
      → s.stops ≡ 0
      → (s' : Server Map) × (run bpf s es ≡ some s') × (s'.stops ≡ (if s'.stopped then 1 else 0))
  run-StopsOnce s es valid running never =
      run_inv bpf StopsOnce advance-StopsOnce s es valid (ground arith)
