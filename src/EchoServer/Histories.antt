-- ===== src/EchoServer/Histories.antt =====
-- What the echo server keeps of a history of connections.
use equic.Counters
use equic.Prelude.{
  ℕ, suc, true, false, Option, some, ◌+◌, ◌-◌, ◌<◌, ◌^◌, ◌≡◌, refl, ap, ◌∙◌, arith, List, [], ◌∷◌,
  leb, ◌==◌, if◌then◌else◌,
}
use equic.Net.{InAddr}
use equic.BpfMap.{BpfMap}
use equic.Echo.{ConnCtx}
use equic.Counters.{equic_dec_counter}
use equic.EchoServer.{
  EchoServer, Event, opened, closed, remove, count_down, echo_server_on_new_conn,
  echo_server_on_conn_closed, step, run,
}

abbrev pub closes : List Event → ℕ
closes [] = 0
closes (opened conn_h peer ∷ es) = closes es
closes (closed conn_h peer still_there ∷ es) = suc (closes es)

abbrev pub clients : List Event → List Counters.Event
clients [] = []
clients (opened conn_h peer ∷ es) = Counters.opened peer ∷ clients es
clients (closed conn_h peer still_there ∷ es) = Counters.closed peer ∷ clients es

-- The memory of each freed context holds what it held.
abbrev pub AreKept : List Event → Type 0
AreKept [] = Unit
AreKept (opened conn_h peer ∷ es) = AreKept es
AreKept (closed conn_h peer still_there ∷ es) = (still_there ≡ true) × AreKept es

module _ (bpf : BpfMap) where
  open bpf use {Map}

  -- What a history leaves.
  abbrev pub Leaves : EchoServer Map → List Event → Option (EchoServer Map) → Type 0
  Leaves s es outcome =
      (s' : EchoServer Map) × (outcome ≡ some s')
      × (s'.n_conn ≡ s.n_conn - closes es)
      × (s'.stops ≡ (
          if s.n_conn == 0
          then s.stops
          else if leb s.n_conn (closes es)
          then s.stops + 1
          else s.stops))
      × (s'.counters ≡ Counters.run bpf s.counters (clients es))

  -- The server after a close whose context is still there.
  abbrev after_close : EchoServer Map → ConnCtx → InAddr → EchoServer Map
  after_close s conn_h peer =
      let s1 = count_down s in
      record s1 {
        conn_ctxs = remove s1.conn_ctxs conn_h.handle;
        counters = equic_dec_counter bpf s1.counters peer;
      }

  after_close-counts :
      (s : EchoServer Map) (conn_h : ConnCtx) (peer : InAddr)
      → s.n_conn < 2 ^ 32
      → let s' = after_close s conn_h peer in
        (s'.n_conn ≡ s.n_conn - 1)
        × (s'.stops ≡ (if s.n_conn == 1 then s.stops + 1 else s.stops))
        × (s'.counters ≡ equic_dec_counter bpf s.counters peer)
  unfolding count_down
  after_close-counts s conn_h peer h = ground arith

  -- After any history in which the memory of each freed context holds what it held, from a limit
  -- `n_conn` below 2 ^ 32: the server goes on; what is left of the limit is what the closes have not
  -- used up; `prog_stop` was called once more if there was a limit and the closes reached it, and not
  -- otherwise; and the map is as the opens and closes of the clients, in order, leave it.
  pub run-Leaves :
      (s : EchoServer Map) (es : List Event)
      → s.n_conn < 2 ^ 32
      → AreKept es
      → Leaves s es (run bpf s es)
  unfolding run step echo_server_on_new_conn echo_server_on_conn_closed Counters.run Counters.step
  run-Leaves s [] h kept = (s, refl, omega arith, ground arith, refl)
  run-Leaves s (opened conn_h peer ∷ es) h kept =
      run-Leaves (echo_server_on_new_conn bpf s conn_h peer) es h kept
  run-Leaves s (closed conn_h peer false ∷ es) h (e, kept) = absurd (cc e)
  run-Leaves s (closed conn_h peer true ∷ es) h (e, kept) =
      let (n, stops, counters) = after_close-counts s conn_h peer h in
      let (s', ended, n', stops', counters') =
        run-Leaves (after_close s conn_h peer) es (omega (arith, n, h)) kept in
      (
        s',
        ended,
        omega (arith, n, n'),
        ground (arith, n, stops, stops'),
        counters' ∙ ap (λ m. Counters.run bpf m (clients es)) counters,
      )
