-- ===== src/FileServer/Write/Rounds.antt =====
-- The calls of a writing handler that sends through a reader, one after the other: of
-- `http_server_on_write` and of `hq_server_on_write`.
use mathlib.Core.List.{append_assoc}
use mathlib.Core.Path.{subst}
use equic.Prelude.{
  ℕ, ◌-◌, ◌≤◌, ◌<◌, ◌≡◌, ◌⊎◌, inl, inr, ap, sym, ◌∙◌, arith, min, Bool, true, false, Option, some,
  List, [], ◌∷◌, ◌++◌, Bytes, length, le_or_gt,
}
use equic.Lsquic.{write, Outcome}
use equic.Lsquic.Peer.{Sent, nw_of, followed}
use equic.FileServer.Reader.{Reader, total, reads, reads-IsValid}
use equic.FileServer.Types.{Options, System, StreamCtx, Input, add_nw}
use equic.FileServer.Write.Step.{
  plainly, followed-last, followed-more, length-content-reads, size-reads, length-reads,
  reads_split, reads_all,
}
use equic.FileServer.Write.{settled}

-- The reads of each write give some of the bytes that are left, its result is their number, and a
-- write takes the last of them.
abbrev pub TakeAll : List Input → ℕ → Type 0
TakeAll [] left = ⊥
TakeAll (input ∷ inputs) left =
    (input.writef_nw ≡ some (min (total input.counts) left))
    × ((left ≤ total input.counts) ⊎ TakeAll inputs (left - total input.counts))

-- The handler is called until the writing side is shut down; `none` if it does not return. It exits
-- where lsquic does not take the headers, so those of a handler that returns were taken.
unfoldable pub rounds {ℓ} :
    {S : Type ℓ} → (S → Input → Outcome S) → S → List Input → Sent → Option Sent
unfolding followed
rounds handler st_h [] s = some s
rounds handler st_h (input ∷ inputs) s =
    followed true (nw_of input.writef_nw) (handler st_h input)
      (λ st_h' s'. rounds handler st_h' inputs s') s

-- A handler that, in states with this flag, writes what the reader gives and tests what is left.
module _ (r : Reader) (o : Options) (system : System (Reader.Ctx r)) (headers_sent : Bool)
    (handler : StreamCtx (Reader.Ctx r) → Input → Outcome (StreamCtx (Reader.Ctx r)))
    (law : (st_h : StreamCtx (Reader.Ctx r)) (ctx : Reader.Ctx r) (input : Input) (n : ℕ)
      → 0 < Reader.lsqr_size r ctx
      → input.writef_nw ≡ some n
      → handler (record st_h { headers_sent = headers_sent; reader = some ctx }) input
        ≡ settled r
            (plainly o)
            system
            (record st_h {
              headers_sent = headers_sent;
              reader = some (reads r ctx input.counts).1;
            })
            (some n)
            (write (reads r ctx input.counts).0 ∷ [])
            (some (Reader.lsqr_size r (reads r ctx input.counts).1))) where
  open r use {Ctx, IsValid, lsqr_size, content, lsqr_size-content}

  abbrev at : StreamCtx Ctx → Ctx → StreamCtx Ctx
  at st_h ctx = record st_h { headers_sent = headers_sent; reader = some ctx }

  rounds-step :
      (inputs : List Input) (input : Input) (st_h : StreamCtx Ctx) (ctx : Ctx) (s : Sent) (n : ℕ)
      → 0 < lsqr_size ctx
      → input.writef_nw ≡ some n
      → rounds handler (at st_h ctx) (input ∷ inputs) s
        ≡ followed true n
            (settled r
              (plainly o)
              system
              (at st_h (reads r ctx input.counts).1)
              (some n)
              (write (reads r ctx input.counts).0 ∷ [])
              (some (lsqr_size (reads r ctx input.counts).1)))
            (λ st_h' s'. rounds handler st_h' inputs s')
            s
  unfolding rounds
  rounds-step inputs input st_h ctx s n p w =
      ap
        (λ nw.
          followed true (nw_of nw) (handler (at st_h ctx) input)
            (λ st_h' s'. rounds handler st_h' inputs s') s)
        w
      ∙ ap (λ outcome. followed true n outcome (λ st_h' s'. rounds handler st_h' inputs s') s)
          (law st_h ctx input n p w)

  pub rounds-content :
      (inputs : List Input) (st_h : StreamCtx Ctx) (ctx : Ctx) (s : Sent) (whole : Bytes)
      → IsValid ctx
      → 0 < length (content ctx)
      → s.bytes ++ content ctx ≡ whole
      → s.closed ≡ false
      → TakeAll inputs (length (content ctx))
      → rounds handler (at st_h ctx) inputs s ≡ some (record s { bytes = whole; closed = true })
  rounds-content [] st_h ctx s whole v p b c t = absurd t
  rounds-content (input ∷ inputs) st_h ctx s whole v p b c (w, t) =
      let counts = input.counts in
      let n = min (total counts) (length (content ctx)) in
      let ctx' = (reads r ctx counts).1 in
      let bytes = (reads r ctx counts).0 in
      rounds-step inputs input st_h ctx s n (omega (arith, lsqr_size-content ctx v)) w
      ∙ elim (le_or_gt (length (content ctx)) (total counts)) [
        | inl all ↦
            followed-last r o system (at st_h ctx') n (lsqr_size ctx') bytes
              (λ st_h' s'. rounds handler st_h' inputs s') s
              (omega (arith, size-reads r o system ctx counts v))
              (length-reads r o system ctx counts v)
            ∙ ap (λ sent. some (record s { bytes = sent; closed = true }))
                (ap (λ more. s.bytes ++ more) (reads_all r o system ctx counts v all) ∙ b)
        | inr part ↦
            followed-more r o system (at st_h ctx') n (lsqr_size ctx') bytes
              (λ st_h' s'. rounds handler st_h' inputs s') s
              (omega (arith, size-reads r o system ctx counts v))
              (length-reads r o system ctx counts v) c
            ∙ rounds-content inputs (record st_h { written = add_nw st_h.written (some n) }) ctx'
                (record s { bytes = s.bytes ++ bytes }) whole (reads-IsValid r ctx counts v)
                (omega (
                  arith,
                  size-reads r o system ctx counts v,
                  lsqr_size-content ctx' (reads-IsValid r ctx counts v),
                ))
                (append_assoc s.bytes bytes (content ctx')
                  ∙ ap (λ more. s.bytes ++ more) (reads_split r o system ctx counts v)
                  ∙ b)
                c
                (elim t [
                  | inl all ↦ absurd (omega (arith, part, all))
                  | inr more ↦
                      subst (λ k. TakeAll inputs k)
                        (sym (length-content-reads r o system ctx counts v)) more
                ])
      ]
