-- ===== src/Server/Limit.antt =====
-- The option -n: the server stops after `max_conn` connections.
use native.Mathlib.Nat.{add-zero}
use equic.Prelude.{
  ◌↔◌, ℕ, ◌+◌, ◌^◌, ◌≤◌, ◌<◌, ◌≡◌, arith, Bool, true, false, some, List, [], ◌∷◌, leb,
}
use equic.BpfMap.{BpfMap}
use equic.Server.{Server, Conn, Event, opened, closed, interval, count_closed, run}
use equic.Server.Step.{AreEvents, advance, advance_all, run-advance_all}
use equic.Server.Totals.{closes, NoCooldown}

module _ (bpf : BpfMap) where
  open bpf use {Map}

  -- `stopped` is set exactly if the limit is reached.
  abbrev IsExact : Server Map → Type 0
  IsExact s = s.stopped ≡ leb s.max_conn s.n_conn

  limit-closed :
      (s : Server Map) (conn : Conn) (cooldown : Bool) (now : ℕ)
      → cooldown ≡ false
      → 0 < s.max_conn
      → s.n_conn + 1 < 2 ^ 32
      → IsExact s
      → let s' = advance bpf s (closed conn cooldown now) in
        IsExact s' × (s'.n_conn ≡ s.n_conn + 1) × (s'.max_conn ≡ s.max_conn)
  unfolding advance count_closed
  limit-closed s conn cooldown now warm limited small h = ground arith

  limit-opened :
      (s : Server Map) (conn : Conn)
      → IsExact s
      → let s' = advance bpf s (opened conn) in
        IsExact s' × (s'.n_conn ≡ s.n_conn) × (s'.max_conn ≡ s.max_conn)
  unfolding advance
  limit-opened s conn h = ground arith

  limit-advance_all :
      (s : Server Map) (es : List Event)
      → NoCooldown es
      → 0 < s.max_conn
      → s.n_conn + closes es < 2 ^ 32
      → IsExact s
      → (advance_all bpf s es).stopped ≡ leb s.max_conn (s.n_conn + closes es)
  unfolding advance advance_all
  limit-advance_all s [] warm limited small h = rw (add-zero s.n_conn) h
  limit-advance_all s (opened conn ∷ es) warm limited small h =
      let (h', n, m) = limit-opened s conn h in
      ground (arith, limit-advance_all (advance bpf s (opened conn)) es warm)
  limit-advance_all s (closed conn cooldown now ∷ es) warm limited small h =
      let (h', n, m) = limit-closed s conn cooldown now warm.0 limited (omega arith) h in
      ground (arith, limit-advance_all (advance bpf s (closed conn cooldown now)) es warm.1)
  limit-advance_all s (interval ∷ es) warm limited small h =
      limit-advance_all (advance bpf s interval) es warm limited small h

  -- A server started with `max_conn` above 0, with no cooldown, fewer than 2 ^ 32 connections closed
  -- and none at the start, runs without a fault and has `stopped` set exactly if at least
  -- `max_conn` connections were closed.
  pub run-stopped :
      (s : Server Map) (es : List Event)
      → AreEvents es
      → NoCooldown es
      → 0 < s.max_conn
      → s.n_conn ≡ 0
      → s.stopped ≡ false
      → closes es < 2 ^ 32
      → (s' : Server Map) × (run bpf s es ≡ some s')
        × ((s'.stopped ≡ true) ↔ (s.max_conn ≤ closes es))
  run-stopped s es valid warm limited none_yet running small = (
    advance_all bpf s es,
    run-advance_all bpf s es valid,
    ground (arith, limit-advance_all s es warm limited),
  )
