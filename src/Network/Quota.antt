-- ===== src/Network/Quota.antt =====
-- The quota, where connections open by handshakes that pass the hook.
use equic.Counters
use equic.Prelude.{ℕ, ◌≤◌, ◌≡◌, ◌≢◌, refl, ap, sym, ◌∙◌, arith, some, List, [], ◌∷◌, ◌++◌, Bytes}
use mathlib.Core.Path.{subst}
use equic.Net.{be32}
use equic.BpfMap.{BpfMap}
use equic.Kern.{Action, aborted, drop, pass, quic_quota_limit}
use equic.Kern.Verdict.{source}
use equic.Counters.History.{Tally, count, tally, value, at_key}
use equic.Server.{Server, opened, closed, interval}
use equic.Network.{Happening, packet, event, handshake, run}
use equic.Network.Verdicts.{
  IsUdp, asked, after_handshake, verdicts, events_of, opening, tally-opening, AreHappenings, Stands,
  run-verdicts,
}

-- Connections open by handshakes only, whose packets are whole UDP packets.
abbrev pub OnlyHandshakes : List Happening → Type 0
OnlyHandshakes [] = Unit
OnlyHandshakes (packet p ∷ hs) = OnlyHandshakes hs
OnlyHandshakes (event (opened conn) ∷ hs) = ⊥
OnlyHandshakes (event (closed conn cooldown now) ∷ hs) = OnlyHandshakes hs
OnlyHandshakes (event interval ∷ hs) = OnlyHandshakes hs
OnlyHandshakes (handshake id p ∷ hs) = IsUdp p × OnlyHandshakes hs

-- No client has more connections than the quota.
abbrev pub IsWithin : Tally → Type 0
IsWithin t = (k : ℕ) → t k ≤ quic_quota_limit

handshake-IsWithin :
    (t : Tally) (p : Bytes) (action : Action)
    → action ≡ asked t p
    → IsUdp p
    → IsWithin t
    → IsWithin (after_handshake t p action)
unfolding asked
handshake-IsWithin t p pass e (long, udp) h =
    λ k. ground (arith, e, h k, at_key t (be32 (source p)) k)
handshake-IsWithin t p drop e u h = h
handshake-IsWithin t p aborted e u h = h

tally-IsWithin :
    (hs : List Happening) (t : Tally)
    → OnlyHandshakes hs
    → IsWithin t
    → IsWithin (tally t (events_of t hs))
unfolding tally events_of
tally-IsWithin [] t o h = h
tally-IsWithin (packet p ∷ hs) t o h = tally-IsWithin hs t o h
tally-IsWithin (event (opened conn) ∷ hs) t o h = absurd o
tally-IsWithin (event (closed conn cooldown now) ∷ hs) t o h =
    tally-IsWithin hs (count t (Counters.closed conn.peer)) o (λ k. ground (arith, h k))
tally-IsWithin (event interval ∷ hs) t o h = tally-IsWithin hs t o h
tally-IsWithin (handshake id p ∷ hs) t (u, o) h =
    let t' = after_handshake t p (asked t p) in
    subst IsWithin (sym (tally-opening (asked t p) t p (events_of t' hs)))
      (tally-IsWithin hs t' o (handshake-IsWithin t p (asked t p) refl u h))

-- No connection of this client closes.
abbrev pub StayOpen : ℕ → List Happening → Type 0
StayOpen k [] = Unit
StayOpen k (event (closed conn cooldown now) ∷ hs) = (be32 conn.peer ≢ k) × StayOpen k hs
StayOpen k (happening ∷ hs) = StayOpen k hs

after_handshake-le :
    (k : ℕ) (t : Tally) (p : Bytes) (action : Action) → t k ≤ after_handshake t p action k
after_handshake-le k t p pass = ground arith
after_handshake-le k t p drop = omega arith
after_handshake-le k t p aborted = omega arith

tally-le :
    (k : ℕ) (hs : List Happening) (t : Tally) → StayOpen k hs → t k ≤ tally t (events_of t hs) k
unfolding tally events_of
tally-le k [] t h = omega arith
tally-le k (packet p ∷ hs) t h = tally-le k hs t h
tally-le k (event (opened conn) ∷ hs) t h =
    ground (arith, tally-le k hs (count t (Counters.opened conn.peer)) h)
tally-le k (event (closed conn cooldown now) ∷ hs) t h =
    ground (arith, tally-le k hs (count t (Counters.closed conn.peer)) h.1, h.0)
tally-le k (event interval ∷ hs) t h = tally-le k hs t h
tally-le k (handshake id p ∷ hs) t h =
    let t' = after_handshake t p (asked t p) in
    subst (λ (u : Tally). t k ≤ u k) (sym (tally-opening (asked t p) t p (events_of t' hs)))
      (omega (arith, after_handshake-le k t p (asked t p), tally-le k hs t' h))

-- A packet at the end.
verdicts-packet :
    (p : Bytes) (hs : List Happening) (t : Tally)
    → (verdicts t (hs ++ (packet p ∷ []))
        ≡ verdicts t hs ++ (asked (tally t (events_of t hs)) p ∷ []))
      × (events_of t (hs ++ (packet p ∷ [])) ≡ events_of t hs)
unfolding verdicts events_of tally
verdicts-packet p [] t = (refl, refl)
verdicts-packet p (packet q ∷ hs) t =
    let (e, f) = verdicts-packet p hs t in (ap (λ as_. asked t q ∷ as_) e, f)
verdicts-packet p (event (opened conn) ∷ hs) t =
    let (e, f) = verdicts-packet p hs (count t (Counters.opened conn.peer)) in
    (e, ap (λ es. Counters.opened conn.peer ∷ es) f)
verdicts-packet p (event (closed conn cooldown now) ∷ hs) t =
    let (e, f) = verdicts-packet p hs (count t (Counters.closed conn.peer)) in
    (e, ap (λ es. Counters.closed conn.peer ∷ es) f)
verdicts-packet p (event interval ∷ hs) t = verdicts-packet p hs t
verdicts-packet p (handshake id q ∷ hs) t =
    let t' = after_handshake t q (asked t q) in
    let (e, f) = verdicts-packet p hs t' in
    (
      ap (λ as_. asked t q ∷ as_) e
          ∙ ap (λ (u : Tally). asked t q ∷ (verdicts t' hs ++ (asked u p ∷ [])))
              (sym (tally-opening (asked t q) t q (events_of t' hs))),
      ap (λ es. opening (asked t q) q es) f,
    )

asked-drop :
    (t : Tally) (p : Bytes) → IsUdp p → quic_quota_limit ≤ t (be32 (source p)) → asked t p ≡ drop
unfolding asked
asked-drop t p (long, udp) h = ground (arith, long, udp, h)

AreHappenings-packet :
    (p : Bytes) (hs : List Happening) → AreHappenings hs → AreHappenings (hs ++ (packet p ∷ []))
AreHappenings-packet p [] h = (tt, tt)
AreHappenings-packet p (x ∷ hs) h = (h.0, AreHappenings-packet p hs h.1)

module _ (bpf : BpfMap) where
  open bpf use {Map, lookup}

  -- For a server with the eBPF program, whose map stands for a tally in which no client has more
  -- connections than QUIC_QUOTA_LIMIT, and any packets, closes and handshakes of IPv4 clients that find
  -- room in the map, in any order, where connections open by handshakes only, each with its packet
  -- judged when all earlier ones were counted: nothing faults, and at the end no counter is above the
  -- quota.
  pub run-IsWithin :
      (hs : List Happening) (s : Server Map) (t : Tally)
      → Stands bpf s t (events_of t hs)
      → AreHappenings hs
      → OnlyHandshakes hs
      → IsWithin t
      → (s' : Server Map) × (run bpf s hs ≡ some (verdicts t hs, s'))
        × ((k : ℕ) → value (lookup s'.counters k) ≤ quic_quota_limit)
  run-IsWithin hs s t h valid o w =
      let (s', e, counts) = run-verdicts bpf hs s t h valid in
      (s', e, λ k. omega (arith, counts k, tally-IsWithin hs t o w k))

  -- A client that has QUIC_QUOTA_LIMIT connections open is cut off: whatever packets, events and
  -- handshakes follow, as long as none of its connections closes, the next whole UDP packet from its
  -- address is dropped, also one of an open connection.
  pub run-cut_off :
      (hs : List Happening) (s : Server Map) (t : Tally) (p : Bytes)
      → Stands bpf s t (events_of t hs)
      → AreHappenings hs
      → quic_quota_limit ≤ t (be32 (source p))
      → StayOpen (be32 (source p)) hs
      → IsUdp p
      → (s' : Server Map) × (run bpf s (hs ++ (packet p ∷ []))
          ≡ some (verdicts t hs ++ (drop ∷ []), s'))
  run-cut_off hs s t p h valid full stay udp =
      let (e, f) = verdicts-packet p hs t in
      let (s', r, counts) =
        run-verdicts bpf (hs ++ (packet p ∷ [])) s t (subst (Stands bpf s t) (sym f) h)
          (AreHappenings-packet p hs valid) in
      let dropped =
        asked-drop (tally t (events_of t hs)) p udp
          (omega (arith, full, tally-le (be32 (source p)) hs t stay)) in
      (
        s',
        r
            ∙ ap (λ as_. some (as_, s')) e
            ∙ ap (λ (action : Action). some (verdicts t hs ++ (action ∷ []), s')) dropped,
      )
