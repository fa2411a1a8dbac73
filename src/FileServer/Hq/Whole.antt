-- ===== src/FileServer/Hq/Whole.antt =====
-- The sending of a whole file in the hq mode.
use equic.Prelude.{
  ℕ, ◌≡◌, inl, inr, refl, ap, ◌∙◌, arith, Bool, true, Option, some, List, [], ◌∷◌, length, min,
  le_or_gt,
}
use equic.Lsquic.{write}
use equic.Lsquic.Peer.{Sent, nothing, nw_of, followed}
use equic.FileServer.Reader.{Reader, total, reads}
use equic.FileServer.Types.{Options, System, StreamCtx, Input}
use equic.FileServer.Write.{bytes_left, settled}
use equic.FileServer.Write.Step.{plainly, followed-last, size-reads, length-reads, reads_all}
use equic.FileServer.Write.Rounds.{TakeAll, rounds, rounds-content}
use equic.FileServer.Hq.{hq_written, hq_server_on_write}

module _ (r : Reader) (o : Options) (system : System (Reader.Ctx r)) where
  open r use {Ctx, IsValid, lsqr_size, content}

  -- The calls of `hq_server_on_write` for a stream.
  abbrev pub run_hq : StreamCtx Ctx → List Input → Sent → Option Sent
  run_hq st_h inputs s = rounds (hq_server_on_write r (plainly o) system) st_h inputs s

  -- A stream with a reader; the flag of the headers plays no part.
  abbrev with_reader : Bool → StreamCtx Ctx → Ctx → StreamCtx Ctx
  with_reader headers_sent st_h ctx = record st_h { headers_sent = headers_sent; reader = some ctx }

  hq_write-reader :
      (headers_sent : Bool) (st_h : StreamCtx Ctx) (ctx : Ctx) (input : Input) (n : ℕ)
      → input.writef_nw ≡ some n
      → hq_server_on_write r (plainly o) system (with_reader headers_sent st_h ctx) input
        ≡ settled r
            (plainly o)
            system
            (with_reader headers_sent st_h (reads r ctx input.counts).1)
            (some n)
            (write (reads r ctx input.counts).0 ∷ [])
            (some (lsqr_size (reads r ctx input.counts).1))
  unfolding hq_server_on_write bytes_left
  hq_write-reader headers_sent st_h ctx input n w =
      ap
        (λ nw.
          hq_written r (plainly o) system
            (with_reader headers_sent st_h (reads r ctx input.counts).1) nw
            (write (reads r ctx input.counts).0 ∷ []))
        w

  -- An empty file takes one write of no bytes.
  run_hq-empty :
      (input : Input) (inputs : List Input) (st_h : StreamCtx Ctx) (ctx : Ctx)
      → IsValid ctx
      → length (content ctx) ≡ 0
      → input.writef_nw ≡ some (min (total input.counts) (length (content ctx)))
      → run_hq (with_reader st_h.headers_sent st_h ctx) (input ∷ inputs) nothing
        ≡ some (record nothing { bytes = content ctx; closed = true })
  unfolding rounds
  run_hq-empty input inputs st_h ctx v e w =
      let n = min (total input.counts) (length (content ctx)) in
      let st_h' = with_reader st_h.headers_sent st_h (reads r ctx input.counts).1 in
      ap
        (λ nw.
          followed true (nw_of nw)
            (hq_server_on_write r (plainly o) system (with_reader st_h.headers_sent st_h ctx) input)
            (λ st s'. run_hq st inputs s') nothing)
        w
      ∙ ap (λ outcome. followed true n outcome (λ st s'. run_hq st inputs s') nothing)
          (hq_write-reader st_h.headers_sent st_h ctx input n w)
      ∙ followed-last r o system st_h' n (lsqr_size (reads r ctx input.counts).1)
          (reads r ctx input.counts).0 (λ st s'. run_hq st inputs s') nothing
          (omega (arith, size-reads r o system ctx input.counts v))
          (length-reads r o system ctx input.counts v)
      ∙ ap (λ sent. some (record nothing { bytes = sent; closed = true }))
          (reads_all r o system ctx input.counts v (omega arith))

  pub run_hq-content :
      (inputs : List Input) (st_h : StreamCtx Ctx) (ctx : Ctx)
      → IsValid ctx
      → TakeAll inputs (length (content ctx))
      → run_hq (with_reader st_h.headers_sent st_h ctx) inputs nothing
        ≡ some (record nothing { bytes = content ctx; closed = true })
  run_hq-content [] st_h ctx v t = absurd t
  run_hq-content (input ∷ inputs) st_h ctx v t = elim (le_or_gt (length (content ctx)) 0) [
    | inl empty ↦ run_hq-empty input inputs st_h ctx v (omega arith) t.0
    | inr more ↦
        rounds-content r o system st_h.headers_sent (hq_server_on_write r (plainly o) system)
          (λ st ctx0 input0 n q w. hq_write-reader st_h.headers_sent st ctx0 input0 n w)
          (input ∷ inputs) st_h ctx nothing (content ctx) v more refl refl t
  ]
