-- ===== src/FileServer/Process/Immediate.antt =====
-- The file of a request that is sent with an immediate first write.
use equic.Prelude.{
  ℕ, ◌^◌, ◌<◌, ◌≡◌, refl, ap, ap₂, lt→ltb, ◌==◌, ◌∙◌, arith, Bool, true, false, some, List, [], ◌∷◌,
  Bytes, ltb, if◌then◌else◌,
}
use equic.Lsquic.{Call, shutdown, want_read, want_write, flush, write, send_headers, returns}
use equic.Lsquic.Chain.{after, and_then}
use equic.FileServer.Reader.{Reader, reads}
use equic.FileServer.Reader.Capped.{CappedReaderCtx, capped_reader_read, capped_reader}
use equic.FileServer.Types.{Options, System, StreamCtx, Input}
use equic.FileServer.Write.{headers_of, send_headers_of}
use equic.FileServer.Write.Step.{plainly, sending}
use equic.FileServer.Process.{
  open_request, created, capped_reads, immediate_end, immediate_written, immediate_write,
  begin_write, process_request,
}

is_pos : (n : ℕ) → 0 < n → (n == 0) ≡ false
is_pos n h = ground arith

module _ (r : Reader) (o : Options) (fits : o.s_immediate_write < 2 ^ 64)
    (system : System (Reader.Ctx r)) where
  open r use {Ctx, IsValid, lsqr_size, content, lsqr_size-content}

  pub capped_reads-reads :
      (counts : List ℕ) (c : CappedReaderCtx r)
      → capped_reads r (plainly o) system c counts
        ≡ reads (capped_reader r o.s_immediate_write fits) c counts
  unfolding capped_reads reads
  capped_reads-reads [] c = refl
  capped_reads-reads (count ∷ counts) c =
      rw (capped_reads-reads counts (capped_reader_read r o.s_immediate_write c count).1) refl

  sent_headers :
      (st_h : StreamCtx Ctx) (name : Bytes) (headers_ok : Bool)
      → st_h.req_filename ≡ some name
      → headers_ok ≡ true
      → send_headers_of r (plainly o) system st_h headers_ok st_h.req_filename
        ≡ returns
            (record st_h { headers_sent = true })
            (send_headers (headers_of r (plainly o) system name) ∷ [])
  sent_headers st_h name headers_ok f ok =
      ap₂ (send_headers_of r (plainly o) system st_h) ok f ∙ unfold send_headers_of in refl

  immediate_write-some :
      (st_h : StreamCtx Ctx) (ctx : Ctx) (input : Input) (n : ℕ)
      → 0 < lsqr_size ctx
      → input.writef_nw ≡ some n
      → immediate_write r (plainly o) system input st_h (some ctx) ≡ (
          let (bytes, c) =
            capped_reads r (plainly o) system (record { inner = ctx; nread = 0 }) input.counts in
          immediate_end r (plainly o) system st_h c.inner (write bytes ∷ []))
  unfolding immediate_write immediate_written
  immediate_write-some st_h ctx input n p w =
      ap
        (λ test.
          if test
          then immediate_written r (plainly o) system st_h
              (capped_reads r (plainly o) system (record { inner = ctx; nread = 0 }) input.counts)
              input.writef_nw
          else immediate_end r (plainly o) system st_h ctx [])
        (lt→ltb 0 (lsqr_size ctx) p)
      ∙ ap
          (immediate_written r (plainly o) system st_h
            (capped_reads r (plainly o) system (record { inner = ctx; nread = 0 }) input.counts))
          w

  -- The calls of a request that has bytes to send.
  abbrev pub calls_of : Bytes → Bytes → Ctx → List Call
  calls_of name bytes ctx =
      send_headers (headers_of r (plainly o) system name)
      ∷ write bytes
      ∷ (if ltb 0 (lsqr_size ctx)
          then flush ∷ want_write true ∷ []
          else shutdown 1 ∷ want_read true ∷ [])

  pub process_request-immediate :
      (st_h : StreamCtx Ctx) (ctx : Ctx) (name : Bytes) (input : Input) (n : ℕ)
      → system.create_lsquic_reader_ctx st_h.req_path ≡ some ctx
      → st_h.req_filename ≡ some name
      → input.headers_ok ≡ true
      → 0 < o.s_immediate_write
      → 0 < lsqr_size ctx
      → input.writef_nw ≡ some n
      → process_request r (plainly o) system st_h input ≡ (
          let (bytes, c) =
            capped_reads r (plainly o) system (record { inner = ctx; nread = 0 }) input.counts in
          returns (sending r o system st_h c.inner) (calls_of name bytes c.inner))
  unfolding process_request open_request created begin_write and_then after immediate_end
  process_request-immediate st_h ctx name input n e f ok p q w =
      let at = record st_h { reader = some ctx } in
      ap
        (λ found.
          and_then (created r (plainly o) system st_h found)
            (begin_write r (plainly o) system input))
        e
      ∙ ap (after []) (
          ap
            (λ test.
              if test
              then returns at (want_write true ∷ [])
              else and_then
                  (send_headers_of r (plainly o) system at input.headers_ok at.req_filename)
                  (λ st_h'. immediate_write r (plainly o) system input st_h' st_h'.reader))
            (is_pos o.s_immediate_write p)
          ∙ ap
              (λ outcome.
                and_then outcome
                  (λ st_h'. immediate_write r (plainly o) system input st_h' st_h'.reader))
              (sent_headers at name input.headers_ok f ok)
          ∙ ap (after (send_headers (headers_of r (plainly o) system name) ∷ []))
              (immediate_write-some (record at { headers_sent = true }) ctx input n q w))
