-- ===== src/Server/Totals.antt =====
-- The counts that the server keeps, against the events that it has seen.
use equic.Counters
use equic.Prelude.{
  ℕ, suc, ◌+◌, ◌%◌, ◌^◌, ◌≡◌, refl, sym, ◌∙◌, ap, arith, Bool, true, false, some, List, [], ◌∷◌,
}
use equic.BpfMap.{BpfMap}
use equic.UserQuota.{add_int}
use equic.Server.{Server, Conn, Event, opened, closed, interval, sub_unsigned, count_closed, run}
use equic.Server.Step.{AreEvents, advance, advance_all, run-advance_all}

-- The connections opened and closed.
abbrev pub opens : List Event → ℕ
opens [] = 0
opens (opened conn ∷ es) = suc (opens es)
opens (closed conn cooldown now ∷ es) = opens es
opens (interval ∷ es) = opens es

abbrev pub closes : List Event → ℕ
closes [] = 0
closes (opened conn ∷ es) = closes es
closes (closed conn cooldown now ∷ es) = suc (closes es)
closes (interval ∷ es) = closes es

-- No connection is closed while the program cools down.
abbrev pub NoCooldown : List Event → Type 0
NoCooldown [] = Unit
NoCooldown (opened conn ∷ es) = NoCooldown es
NoCooldown (closed conn cooldown now ∷ es) = (cooldown ≡ false) × NoCooldown es
NoCooldown (interval ∷ es) = NoCooldown es

-- The events as the map of counters sees them.
abbrev pub clients : List Event → List Counters.Event
clients [] = []
clients (opened conn ∷ es) = Counters.opened conn.peer ∷ clients es
clients (closed conn cooldown now ∷ es) = Counters.closed conn.peer ∷ clients es
clients (interval ∷ es) = clients es

module _ (bpf : BpfMap) where
  open bpf use {Map}

  current-opened :
      (s : Server Map) (conn : Conn)
      → (advance bpf s (opened conn)).n_current_conns ≡ add_int s.n_current_conns
  unfolding advance
  current-opened s conn = ground arith

  current-closed :
      (s : Server Map) (conn : Conn) (cooldown : Bool) (now : ℕ)
      → (advance bpf s (closed conn cooldown now)).n_current_conns ≡ sub_unsigned s.n_current_conns
  unfolding advance count_closed
  current-closed s conn cooldown now = ground arith

  current-interval : (s : Server Map) → (advance bpf s interval).n_current_conns ≡ s.n_current_conns
  unfolding advance
  current-interval s = refl

  current-advance_all :
      (s : Server Map) (es : List Event)
      → (((advance_all bpf s es).n_current_conns + closes es) % 2 ^ 32)
        ≡ (s.n_current_conns + opens es) % 2 ^ 32
  unfolding advance_all
  current-advance_all s [] = refl
  current-advance_all s (opened conn ∷ es) =
      omega (arith, current-advance_all (advance bpf s (opened conn)) es, current-opened s conn)
  current-advance_all s (closed conn cooldown now ∷ es) = omega (
    arith,
    current-advance_all (advance bpf s (closed conn cooldown now)) es,
    current-closed s conn cooldown now,
  )
  current-advance_all s (interval ∷ es) =
      omega (arith, current-advance_all (advance bpf s interval) es, current-interval s)

  -- Any events of IPv4 peers run without a fault, and modulo 2 ^ 32 `n_current_conns` and the
  -- connections closed make up its value at the start and the connections opened, those that the
  -- quota refused included.
  pub run-n_current_conns :
      (s : Server Map) (es : List Event)
      → AreEvents es
      → (s' : Server Map) × (run bpf s es ≡ some s')
        × ((s'.n_current_conns + closes es) % 2 ^ 32 ≡ (s.n_current_conns + opens es) % 2 ^ 32)
  run-n_current_conns s es valid =
      (advance_all bpf s es, run-advance_all bpf s es valid, current-advance_all s es)

  pub ebpf-advance :
      (s : Server Map) (e : Event)
      → s.has_ebpf ≡ true
      → ((advance bpf s e).has_ebpf ≡ true) × ((advance bpf s e).quotas ≡ s.quotas)
  unfolding advance count_closed
  ebpf-advance s (opened conn) h = ground arith
  ebpf-advance s (closed conn cooldown now) h = ground arith
  ebpf-advance s interval h = (h, refl)

  pub counters-advance :
      (s : Server Map) (e : Event)
      → s.has_ebpf ≡ true
      → (advance bpf s e).counters ≡ Counters.run bpf s.counters (clients (e ∷ []))
  unfolding advance count_closed Counters.run Counters.step
  counters-advance s (opened conn) h = ground arith
  counters-advance s (closed conn cooldown now) h = ground arith
  counters-advance s interval h = refl

  counters-cons :
      (m : Map) (e : Event) (es : List Event)
      → Counters.run bpf m (clients (e ∷ es))
        ≡ Counters.run bpf (Counters.run bpf m (clients (e ∷ []))) (clients es)
  unfolding Counters.run
  counters-cons m (opened conn) es = refl
  counters-cons m (closed conn cooldown now) es = refl
  counters-cons m interval es = refl

  counters-advance_all :
      (s : Server Map) (es : List Event)
      → s.has_ebpf ≡ true
      → ((advance_all bpf s es).counters ≡ Counters.run bpf s.counters (clients es))
        × ((advance_all bpf s es).quotas ≡ s.quotas)
  unfolding advance_all
  counters-advance_all s [] h = (unfold Counters.run in refl, refl)
  counters-advance_all s (e ∷ es) h =
      let (on, same) = ebpf-advance s e h in
      let (counts, quotas) = counters-advance_all (advance bpf s e) es on in
      (
        counts
            ∙ ap (λ m. Counters.run bpf m (clients es)) (counters-advance s e h)
            ∙ sym (counters-cons s.counters e es),
        quotas ∙ same,
      )

  -- With the eBPF program loaded, any events of IPv4 peers run without a fault, leave the map of
  -- counters as `equic_inc_counter` and `equic_dec_counter` on their peers do, in order, and leave
  -- the quotas of user space alone.
  pub run-counters :
      (s : Server Map) (es : List Event)
      → AreEvents es
      → s.has_ebpf ≡ true
      → (s' : Server Map) × (run bpf s es ≡ some s')
        × (s'.counters ≡ Counters.run bpf s.counters (clients es))
        × (s'.quotas ≡ s.quotas)
  run-counters s es valid h =
      let (counts, quotas) = counters-advance_all s es h in
      (advance_all bpf s es, run-advance_all bpf s es valid, counts, quotas)
