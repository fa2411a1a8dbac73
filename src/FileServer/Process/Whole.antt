-- ===== src/FileServer/Process/Whole.antt =====
-- The sending of a whole file that begins with an immediate write.
use equic.Prelude.{
  ℕ, ◌-◌, ◌^◌, ◌≤◌, ◌<◌, ◌≡◌, ◌⊎◌, inl, inr, refl, ap, lt→ltb, ◌∙◌, arith, min, true, false, Option,
  some, List, [], ◌∷◌, ◌++◌, Bytes, codes, length, take, length-take, take_full, le_or_gt,
  length-append,
}
use mathlib.Core.Path.{subst}
use equic.Lsquic.{returns}
use equic.Lsquic.Peer.{Sent, nothing, followed}
use equic.FileServer.Reader.{Reader, total}
use equic.FileServer.Reader.Capped.{CappedReaderCtx, reads-capped_reader}
use equic.FileServer.ContentType.{select_content_type}
use equic.FileServer.Types.{Options, System, StreamCtx, Input}
use equic.FileServer.Write.{headers_of}
use equic.FileServer.Write.Step.{plainly, sending}
use equic.FileServer.Write.Rounds.{TakeAll}
use equic.FileServer.Write.Whole.{run, run-sending}
use equic.FileServer.Process.Immediate.{capped_reads-reads, calls_of, process_request-immediate}
use equic.FileServer.Process.{capped_reads, process_request}

nil_of : (bytes : Bytes) → length bytes ≡ 0 → bytes ≡ []
nil_of [] e = refl
nil_of (x ∷ xs) e = absurd (omega (arith, e))

module _ (r : Reader) (o : Options) (fits : o.s_immediate_write < 2 ^ 64)
    (system : System (Reader.Ctx r)) where
  open r use {Ctx, IsValid, lsqr_size, content, lsqr_size-content}

  -- What the immediate write of a context reads, and what it leaves.
  module _ (ctx : Ctx) (counts : List ℕ) (v : IsValid ctx) where
    read : Bytes × CappedReaderCtx r
    read = capped_reads r (plainly o) system (record { inner = ctx; nread = 0 }) counts

    amount : ℕ
    amount = min (total counts) o.s_immediate_write

    facts :
        (read.0 ≡ take amount (content ctx))
        × IsValid read.1.inner
        × (read.0 ++ content read.1.inner ≡ content ctx)
    unfolding read amount
    facts =
        rw (capped_reads-reads r o fits system counts (record { inner = ctx; nread = 0 }))
          (reads-capped_reader r o.s_immediate_write fits ctx counts v)

    length-read : length read.0 ≡ min amount (length (content ctx))
    length-read = rw facts.0 (length-take amount (content ctx))

    size-rest : lsqr_size read.1.inner ≡ length (content ctx) - amount
    size-rest = omega (
      arith,
      lsqr_size-content read.1.inner facts.1,
      length-append read.0 (content read.1.inner),
      ap (λ (bytes : Bytes). length bytes) facts.2,
      length-read,
    )

  sent_last :
      (bytes : Bytes) (n : ℕ) (name : Bytes) (ctx : Ctx) (st_h : StreamCtx Ctx)
      (next : StreamCtx Ctx → Sent → Option Sent)
      → length bytes ≤ n
      → lsqr_size ctx ≡ 0
      → followed true n (returns st_h (calls_of r o fits system name bytes ctx)) next nothing
        ≡ some (record {
          heads = headers_of r (plainly o) system name ∷ [];
          bytes = bytes;
          closed = true;
        })
  unfolding followed
  sent_last bytes n name ctx st_h next h e = rw (e, take_full n bytes h) refl

  sent_part :
      (bytes : Bytes) (n : ℕ) (name : Bytes) (ctx : Ctx) (st_h : StreamCtx Ctx)
      (next : StreamCtx Ctx → Sent → Option Sent)
      → length bytes ≤ n
      → 0 < lsqr_size ctx
      → followed true n (returns st_h (calls_of r o fits system name bytes ctx)) next nothing
        ≡ next st_h (record {
          heads = headers_of r (plainly o) system name ∷ [];
          bytes = bytes;
          closed = false;
        })
  unfolding followed
  sent_part bytes n name ctx st_h next h p =
      rw (lt→ltb 0 (lsqr_size ctx) p, take_full n bytes h) refl

  -- For every stream with the name of a file that has a reader, not empty, with `s_immediate_write` set
  -- and neither preadv nor a delay: if lsquic_stream_writef gives the number of bytes that it read, and
  -- lsquic takes what the immediate write leaves in the calls of `http_server_on_write`, then
  -- `process_request` and those calls together send the peer one header block and the bytes of the
  -- file, all of them and in order, and shut down the writing side.
  pub run-immediate :
      (st_h : StreamCtx Ctx) (ctx : Ctx) (name : Bytes) (input : Input) (inputs : List Input)
      → IsValid ctx
      → system.create_lsquic_reader_ctx st_h.req_path ≡ some ctx
      → st_h.req_filename ≡ some name
      → input.headers_ok ≡ true
      → 0 < o.s_immediate_write
      → 0 < length (content ctx)
      → input.writef_nw
        ≡ some (min (min (total input.counts) o.s_immediate_write) (length (content ctx)))
      → (length (content ctx) ≤ min (total input.counts) o.s_immediate_write)
        ⊎ TakeAll inputs (length (content ctx) - min (total input.counts) o.s_immediate_write)
      → followed true
          (min (min (total input.counts) o.s_immediate_write) (length (content ctx)))
          (process_request r (plainly o) system st_h input)
          (λ st_h' s. run r o system st_h' inputs s)
          nothing
        ≡ some (record {
          heads =
              ((codes ":status", codes "200")
                ∷ (codes "content-type", select_content_type name)
                ∷ [])
              ∷ [];
          bytes = content ctx;
          closed = true;
        })
  unfolding read amount headers_of
  run-immediate st_h ctx name input inputs v e f ok p q w t =
      let n = min (min (total input.counts) o.s_immediate_write) (length (content ctx)) in
      let bytes = (read ctx input.counts v).0 in
      let rest = (read ctx input.counts v).1.inner in
      let known = facts ctx input.counts v in
      let left = size-rest ctx input.counts v in
      let rest_left : length (content ctx) - min (total input.counts) o.s_immediate_write
          ≡ length (content rest) =
        omega (arith, left, lsqr_size-content rest known.1) in
      let fit : length bytes ≤ n = omega (arith, length-read ctx input.counts v) in
      ap (λ outcome. followed true n outcome (λ st_h' s. run r o system st_h' inputs s) nothing)
        (process_request-immediate r o fits system st_h ctx name input n e f ok p
          (omega (arith, lsqr_size-content ctx v)) w)
      ∙ elim (le_or_gt (length (content ctx)) (min (total input.counts) o.s_immediate_write)) [
        | inl all ↦
            sent_last bytes n name rest (sending r o system st_h rest)
              (λ st_h' s. run r o system st_h' inputs s) fit (omega (arith, left))
            ∙ ap
                (λ sent. some (record {
                  heads = headers_of r (plainly o) system name ∷ [];
                  bytes = sent;
                  closed = true;
                }))
                (known.0 ∙ take_full (amount ctx input.counts v) (content ctx) all)
        | inr part ↦
            sent_part bytes n name rest (sending r o system st_h rest)
              (λ st_h' s. run r o system st_h' inputs s) fit (omega (arith, left))
            ∙ run-sending r o system inputs st_h rest
                (record {
                  heads = headers_of r (plainly o) system name ∷ [];
                  bytes = bytes;
                  closed = false;
                })
                (content ctx) known.1 (omega (arith, left, lsqr_size-content rest known.1)) known.2
                refl
                (elim t [
                  | inl all ↦ absurd (omega (arith, part, all))
                  | inr more ↦ subst (λ k. TakeAll inputs k) rest_left more
                ])
      ]
