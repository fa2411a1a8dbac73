-- ===== src/Network/Verdicts.antt =====
-- What the hook does with each packet, against an abstract tally of the open connections.
use equic.Counters
use equic.Prelude.{
  ℕ, ◌+◌, ◌≤◌, ◌<◌, ◌^◌, ◌≡◌, refl, ap, sym, ◌∙◌, arith, Bool, true, Option, none, some, List, [],
  ◌∷◌, Bytes, length, ltb, leb, ◌==◌, if◌then◌else◌,
}
use mathlib.Core.Path.{subst}
use equic.Net.{be32, IsAddr, ipproto_udp, ◌>>=◌}
use equic.BpfMap.{BpfMap}
use equic.Kern.{Action, aborted, drop, pass, udp_quota, on_counter, quic_quota_limit}
use equic.Kern.Verdict.{source, protocol, verdict, udp_quota-verdict}
use equic.Counters.History.{Tally, count, tally, value, Counts, Fits, inc-Counts, dec-Counts}
use equic.Server.{Server, Conn, Event, opened, closed, interval}
use equic.Server.Step.{IsEvent, advance, step-advance}
use equic.Server.Totals.{ebpf-advance, counters-advance}
use equic.Network.{Happening, packet, event, handshake, admit, run}

-- A whole UDP packet.
abbrev pub IsUdp : Bytes → Type 0
IsUdp p = (42 ≤ length p) × (protocol p ≡ ipproto_udp)

-- The verdict that the quota asks for.
unfoldable pub asked : Tally → Bytes → Action
asked t p =
    if ltb (length p) 34
    then aborted
    else if protocol p == ipproto_udp
    then (if ltb (length p) 42
        then aborted
        else if leb quic_quota_limit (t (be32 (source p)))
        then drop
        else pass)
    else pass

-- The tally after an event, and after a handshake that got this verdict.
abbrev pub after_event : Tally → Event → Tally
after_event t (opened conn) = count t (Counters.opened conn.peer)
after_event t (closed conn cooldown now) = count t (Counters.closed conn.peer)
after_event t interval = t

abbrev pub after_handshake : Tally → Bytes → Action → Tally
after_handshake t p pass = count t (Counters.opened (source p))
after_handshake t p _ = t

-- The verdicts on the packets, in order, and the tally at the end.
unfoldable pub verdicts : Tally → List Happening → List Action
verdicts t [] = []
verdicts t (packet p ∷ hs) = asked t p ∷ verdicts t hs
verdicts t (event e ∷ hs) = verdicts (after_event t e) hs
verdicts t (handshake id p ∷ hs) = asked t p ∷ verdicts (after_handshake t p (asked t p)) hs

verdict-asked :
    (t : Tally) (p : Bytes) (found : Option ℕ)
    → value found ≡ t (be32 (source p))
    → t (be32 (source p)) < 2 ^ 31
    → verdict found p ≡ asked t p
unfolding verdict asked on_counter
verdict-asked t p none e h = ground arith
verdict-asked t p (some v) e h = ground arith

-- The addresses are IPv4 addresses.
abbrev pub IsHappening : Happening → Type 0
IsHappening (packet p) = Unit
IsHappening (event e) = IsEvent e
IsHappening (handshake id p) = IsAddr (source p)

abbrev pub AreHappenings : List Happening → Type 0
AreHappenings [] = Unit
AreHappenings (h ∷ hs) = IsHappening h × AreHappenings hs

-- The opens and closes that the map of counters sees.
unfoldable pub opening : Action → Bytes → List Counters.Event → List Counters.Event
opening pass p es = Counters.opened (source p) ∷ es
opening _ p es = es

unfoldable pub events_of : Tally → List Happening → List Counters.Event
unfolding opening
events_of t [] = []
events_of t (packet p ∷ hs) = events_of t hs
events_of t (event (opened conn) ∷ hs) =
    Counters.opened conn.peer ∷ events_of (after_event t (opened conn)) hs
events_of t (event (closed conn cooldown now) ∷ hs) =
    Counters.closed conn.peer ∷ events_of (after_event t (closed conn cooldown now)) hs
events_of t (event interval ∷ hs) = events_of t hs
events_of t (handshake id p ∷ hs) =
    opening (asked t p) p (events_of (after_handshake t p (asked t p)) hs)

pub tally-opening :
    (action : Action) (t : Tally) (p : Bytes) (es : List Counters.Event)
    → tally t (opening action p es) ≡ tally (after_handshake t p action) es
unfolding tally opening
tally-opening pass t p es = refl
tally-opening drop t p es = refl
tally-opening aborted t p es = refl

module _ (bpf : BpfMap) where
  open bpf use {Map, lookup}

  -- A server with the eBPF program, whose map stands for the tally and has room for the clients to
  -- come, and whose counters stay small.
  abbrev pub Stands : Server Map → Tally → List Counters.Event → Type 0
  Stands s t es =
      (s.has_ebpf ≡ true)
      × Counts bpf s.counters t
      × Fits bpf s.counters es
      × ((k : ℕ) → t k + length es < 2 ^ 31)

  opened-Stands :
      (s : Server Map) (t : Tally) (conn : Conn) (es : List Counters.Event)
      → Stands s t (Counters.opened conn.peer ∷ es)
      → Stands (advance bpf s (opened conn)) (count t (Counters.opened conn.peer)) es
  unfolding Counters.run Counters.step
  opened-Stands s t conn es (on, counts, (room, fits), small) =
      let same = sym (counters-advance bpf s (opened conn) on) in
      (
        (ebpf-advance bpf s (opened conn) on).0,
        subst (λ m. Counts bpf m (count t (Counters.opened conn.peer))) same
            (inc-Counts bpf s.counters t conn.peer room (λ k. omega (arith, small k)) counts),
        subst (λ m. Fits bpf m es) same fits,
        λ k. ground (arith, small k),
      )

  closed-Stands :
      (s : Server Map) (t : Tally) (conn : Conn) (cooldown : Bool) (now : ℕ)
      (es : List Counters.Event)
      → Stands s t (Counters.closed conn.peer ∷ es)
      → Stands (advance bpf s (closed conn cooldown now)) (count t (Counters.closed conn.peer)) es
  unfolding Counters.run Counters.step
  closed-Stands s t conn cooldown now es (on, counts, fits, small) =
      let same = sym (counters-advance bpf s (closed conn cooldown now) on) in
      (
        (ebpf-advance bpf s (closed conn cooldown now) on).0,
        subst (λ m. Counts bpf m (count t (Counters.closed conn.peer))) same
            (dec-Counts bpf s.counters t conn.peer counts),
        subst (λ m. Fits bpf m es) same fits,
        λ k. ground (arith, small k),
      )

  interval-Stands :
      (s : Server Map) (t : Tally) (es : List Counters.Event)
      → Stands s t es
      → Stands (advance bpf s interval) t es
  unfolding Counters.run
  interval-Stands s t es (on, counts, fits, small) =
      let same = sym (counters-advance bpf s interval on) in
      (
        (ebpf-advance bpf s interval on).0,
        subst (λ m. Counts bpf m t) same counts,
        subst (λ m. Fits bpf m es) same fits,
        small,
      )

  udp_quota-asked :
      (s : Server Map) (t : Tally) (es : List Counters.Event) (p : Bytes)
      → Stands s t es
      → udp_quota (lookup s.counters) p ≡ some (asked t p)
  udp_quota-asked s t es p (on, counts, fits, small) =
      udp_quota-verdict (lookup s.counters) p
      ∙ ap some (
          verdict-asked t p (lookup s.counters (be32 (source p))) (counts (be32 (source p)))
            (omega (arith, small (be32 (source p)))))

  -- How a run ends: with these verdicts, and a map that stands for this tally.
  abbrev pub Ends : Option (List Action × Server Map) → List Action → Tally → Type 0
  Ends outcome actions t =
      (s' : Server Map) × (outcome ≡ some (actions, s')) × Counts bpf s'.counters t

  -- A verdict, and what follows.
  Ends-action :
      (action : Action) (found : Option Action) (outcome : Option (List Action × Server Map))
      (actions : List Action) (t : Tally)
      → found ≡ some action
      → Ends outcome actions t
      → Ends (found >>= (λ a. outcome >>= (λ (as_, s'). some (a ∷ as_, s')))) (action ∷ actions) t
  Ends-action action found outcome actions t e (s', r, c) = (s', rw (e, r) refl, c)

  Ends-handshake :
      (action : Action) (found : Option Action) (admit_ : Action → Option (Server Map))
      (s1 : Server Map) (hs : List Happening) (actions : List Action) (t : Tally)
      → found ≡ some action
      → admit_ action ≡ some s1
      → Ends (run bpf s1 hs) actions t
      → Ends
          (found
            >>= (λ a. admit_ a >>= (λ s2. run bpf s2 hs >>= (λ (as_, s'). some (a ∷ as_, s')))))
          (action ∷ actions)
          t
  Ends-handshake action found admit_ s1 hs actions t e d (s', r, c) = (s', rw (e, d, r) refl, c)

  admit-Stands :
      (action : Action) (s : Server Map) (t : Tally) (id : ℕ) (p : Bytes) (es : List Counters.Event)
      → Stands s t (opening action p es)
      → IsAddr (source p)
      → (s1 : Server Map) × (admit bpf s id p action ≡ some s1)
        × Stands s1 (after_handshake t p action) es
  unfolding admit opening
  admit-Stands pass s t id p es h valid =
      let conn : Conn = record { id = id; peer = source p } in
      (
        advance bpf s (opened conn),
        step-advance bpf s (opened conn) valid,
        opened-Stands s t conn es h,
      )
  admit-Stands drop s t id p es h valid = (s, refl, h)
  admit-Stands aborted s t id p es h valid = (s, refl, h)

  -- For a server with the eBPF program, whose map stands for a tally of the open connections of each
  -- client, and any packets, events and handshakes, in any order, of IPv4 clients that find room in the
  -- map, with fewer than 2 ^ 31 connections of each: nothing faults; each packet is dropped exactly if
  -- it is a whole UDP packet of a client that has QUIC_QUOTA_LIMIT connections open or more at that
  -- moment, aborted if it is too short for its headers, and passed otherwise; and the map stands for
  -- the tally of the connections at the end.
  pub run-verdicts :
      (hs : List Happening) (s : Server Map) (t : Tally)
      → Stands s t (events_of t hs)
      → AreHappenings hs
      → Ends (run bpf s hs) (verdicts t hs) (tally t (events_of t hs))
  unfolding run verdicts events_of tally
  run-verdicts [] s t h valid = (s, refl, h.1)
  run-verdicts (packet p ∷ hs) s t h valid =
      Ends-action (asked t p) (udp_quota (lookup s.counters) p) (run bpf s hs) (verdicts t hs)
        (tally t (events_of t hs)) (udp_quota-asked s t (events_of t hs) p h)
        (run-verdicts hs s t h valid.1)
  run-verdicts (event (opened conn) ∷ hs) s t h valid =
      rw (step-advance bpf s (opened conn) valid.0) (
        run-verdicts hs (advance bpf s (opened conn)) (count t (Counters.opened conn.peer))
          (opened-Stands s t conn (events_of (after_event t (opened conn)) hs) h) valid.1)
  run-verdicts (event (closed conn cooldown now) ∷ hs) s t h valid =
      rw (step-advance bpf s (closed conn cooldown now) valid.0) (
        run-verdicts hs (advance bpf s (closed conn cooldown now))
          (count t (Counters.closed conn.peer))
          (closed-Stands s t conn cooldown now
            (events_of (after_event t (closed conn cooldown now)) hs) h)
          valid.1)
  run-verdicts (event interval ∷ hs) s t h valid =
      rw (step-advance bpf s interval valid.0) (
        run-verdicts hs (advance bpf s interval) t (interval-Stands s t (events_of t hs) h) valid.1)
  run-verdicts (handshake id p ∷ hs) s t h valid =
      let es = events_of (after_handshake t p (asked t p)) hs in
      let (s1, e, h1) = admit-Stands (asked t p) s t id p es h valid.0 in
      let more = run-verdicts hs s1 (after_handshake t p (asked t p)) h1 valid.1 in
      subst
        (λ t'.
          Ends (run bpf s (handshake id p ∷ hs))
            (asked t p ∷ verdicts (after_handshake t p (asked t p)) hs) t')
        (sym (tally-opening (asked t p) t p es))
        (Ends-handshake (asked t p) (udp_quota (lookup s.counters) p) (admit bpf s id p) s1 hs
          (verdicts (after_handshake t p (asked t p)) hs)
          (tally (after_handshake t p (asked t p)) es)
          (udp_quota-asked s t (opening (asked t p) p es) p h) e more)
