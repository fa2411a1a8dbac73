-- ===== src/FileServer/Process.antt =====
-- http_server.c, `process_request`: it opens the file of a request and, with `s_immediate_write`,
-- begins to send it.
pub mod Opened
pub mod Immediate
pub mod Whole
mod Tests
use equic.Prelude.{
  ℕ, zero, suc, Bool, true, false, Option, none, some, List, [], ◌∷◌, ◌++◌, Bytes, ltb, ◌==◌,
  if◌then◌else◌,
}
use equic.Lsquic.{
  Call, shutdown, want_read, want_write, flush, write, Outcome, returns, exits, faults,
}
use equic.Lsquic.Chain.{and_then}
use equic.FileServer.Reader.{Reader, reads}
use equic.FileServer.Reader.Capped.{CappedReaderCtx, capped_reader_read}
use equic.FileServer.Types.{Pwritev, off, Options, System, StreamCtx, Input}
use equic.FileServer.Write.{send_headers_of}

module _ (r : Reader) (o : Options) (system : System (Reader.Ctx r)) where
  open r use {Ctx, lsqr_size}

  opened_size : StreamCtx Ctx → ℕ → Option ℕ → Outcome (StreamCtx Ctx)
  opened_size st_h fd none = exits 1
  opened_size st_h fd (some size) = returns (record st_h { file_fd = fd; file_size = size }) []

  opened : StreamCtx Ctx → Option ℕ → Outcome (StreamCtx Ctx)
  opened st_h none = exits 1
  opened st_h (some fd) = opened_size st_h fd (system.fstat fd)

  created : StreamCtx Ctx → Option Ctx → Outcome (StreamCtx Ctx)
  created st_h none = exits 1
  created st_h (some ctx) = returns (record st_h { reader = some ctx }) []

  -- The first part: the file.
  pub open_request : Pwritev → StreamCtx Ctx → Outcome (StreamCtx Ctx)
  unfolding opened opened_size created
  open_request off st_h = created st_h (system.create_lsquic_reader_ctx st_h.req_path)
  open_request _ st_h = opened st_h (system.open_file st_h.req_path)

  -- The reads of lsquic_stream_writef with a new capped reader.
  pub capped_reads : CappedReaderCtx r → List ℕ → Bytes × CappedReaderCtx r
  capped_reads c [] = ([], c)
  capped_reads c (count ∷ counts) =
      let (bytes, c') = capped_reader_read r o.s_immediate_write c count in
      let (more, c'') = capped_reads c' counts in (bytes ++ more, c'')

  -- The end of an immediate write.
  immediate_end : StreamCtx Ctx → Ctx → List Call → Outcome (StreamCtx Ctx)
  immediate_end st_h ctx calls =
      returns (record st_h { reader = some ctx })
        (calls
          ++ (if ltb 0 (lsqr_size ctx)
              then flush ∷ want_write true ∷ []
              else shutdown 1 ∷ want_read true ∷ []))

  immediate_written : StreamCtx Ctx → Bytes × CappedReaderCtx r → Option ℕ → Outcome (StreamCtx Ctx)
  immediate_written st_h (bytes, c) none = exits 1
  immediate_written st_h (bytes, c) (some nw) = immediate_end st_h c.inner (write bytes ∷ [])

  -- A null pointer as the reader, which is what `s_pwritev` leaves, is a fault of test_reader_size.
  immediate_write : Input → StreamCtx Ctx → Option Ctx → Outcome (StreamCtx Ctx)
  immediate_write input st_h none = faults
  immediate_write input st_h (some ctx) =
      if ltb 0 (lsqr_size ctx)
      then immediate_written st_h (capped_reads (record { inner = ctx; nread = 0 }) input.counts)
          input.writef_nw
      else immediate_end st_h ctx []

  -- The second part.
  pub begin_write : Input → StreamCtx Ctx → Outcome (StreamCtx Ctx)
  unfolding immediate_write immediate_written immediate_end capped_reads
  begin_write input st_h =
      if o.s_immediate_write == 0
      then returns st_h (want_write true ∷ [])
      else and_then (send_headers_of r o system st_h input.headers_ok st_h.req_filename)
          (λ st_h'. immediate_write input st_h' st_h'.reader)

  pub process_request : StreamCtx Ctx → Input → Outcome (StreamCtx Ctx)
  unfolding open_request begin_write and_then
  process_request st_h input = and_then (open_request o.s_pwritev st_h) (begin_write input)
