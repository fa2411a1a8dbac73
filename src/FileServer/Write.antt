-- ===== src/FileServer/Write.antt =====
-- http_server.c, the sending of a file: `bytes_left`, `my_preadv`, `pwritev_fallback_read` and
-- `pwritev_fallback_size`, `send_headers` and `http_server_on_write`.
pub mod Parts
pub mod Step
pub mod Rounds
pub mod Whole
pub mod Preadv
pub mod Fallback
pub mod Delay
mod Tests
use equic.Prelude.{
  ℕ, zero, suc, ◌+◌, ◌-◌, Bool, true, false, not, ◌&&◌, Option, none, some, List, [], ◌∷◌, ◌++◌,
  Bytes, codes, length, ltb, leb, if◌then◌else◌,
}
use equic.Net.{◌>>=◌}
use equic.Lsquic.{
  Call, shutdown, want_read, want_write, stream_close, write, send_headers, pwritev, add_timer,
  Outcome, returns, exits, faults,
}
use equic.FileServer.Reader.{Reader, reads}
use equic.FileServer.Reader.Capped.{sub_size_t}
use equic.FileServer.ContentType.{select_content_type}
use equic.FileServer.Types.{
  Pwritev, off, at_most, unlimited, Options, System, StreamCtx, Input, add_nw,
}

module _ (r : Reader) (o : Options) (system : System (Reader.Ctx r)) where
  open r use {Ctx, lsqr_size}

  -- `none` is a null pointer for the reader.
  pub bytes_left_of : Pwritev → StreamCtx Ctx → Option Ctx → Option ℕ
  bytes_left_of off st_h none = none
  bytes_left_of off st_h (some ctx) = some (lsqr_size ctx)
  bytes_left_of _ st_h reader = some (sub_size_t st_h.file_size st_h.written)

  unfoldable pub bytes_left : StreamCtx Ctx → Option ℕ
  unfolding bytes_left_of
  bytes_left st_h = bytes_left_of o.s_pwritev st_h st_h.reader

  abbrev pub my_preadv : StreamCtx Ctx → ℕ → Option Bytes
  my_preadv st_h len = system.preadv st_h.file_fd len st_h.written

  abbrev pub pwritev_fallback_size : StreamCtx Ctx → ℕ
  pwritev_fallback_size st_h = sub_size_t st_h.file_size st_h.written

  -- `none` if the buffer of `count` bytes is overrun, or if the result is -1, which as a size is more
  -- than the buffer holds.
  pub pwritev_fallback_read : StreamCtx Ctx → ℕ → Option Bytes
  pwritev_fallback_read st_h count = do
    let ntoread = sub_size_t st_h.file_size st_h.written
    bytes ← my_preadv st_h (if ltb count ntoread then ntoread else count)
    if ltb count (length bytes) then none else some bytes

  -- lsquic_stream_writef with this reader, for buffers of some sizes.
  fallback_reads : StreamCtx Ctx → List ℕ → Option Bytes
  fallback_reads st_h [] = some []
  fallback_reads st_h (count ∷ counts) = do
    bytes ← pwritev_fallback_read st_h count
    more ← fallback_reads st_h counts
    some (bytes ++ more)

  -- The state after a write, its result `nw` and the calls; `none` is a fault.
  abbrev pub Written : Type 0
  Written = Option (StreamCtx Ctx × Option ℕ × List Call)

  write_reader : StreamCtx Ctx → Input → Option Ctx → Written
  write_reader st_h input none = none
  write_reader st_h input (some ctx) =
      let (bytes, ctx') = reads r ctx input.counts in
      some (record st_h { reader = some ctx' }, input.writef_nw, write bytes ∷ [])

  to_write : Pwritev → ℕ → ℕ
  to_write (at_most n) left = if ltb n left then n else left
  to_write _ left = left

  or_empty : Option Bytes → Bytes
  or_empty none = []
  or_empty (some bytes) = bytes

  -- lsquic_stream_pwritev, and lsquic_stream_writef if its result is 0.
  write_pwritev : StreamCtx Ctx → Input → ℕ → Option ℕ → Written
  write_pwritev st_h input left (some zero) = do
    bytes ← fallback_reads st_h input.counts
    some (st_h, input.writef_nw, pwritev (to_write o.s_pwritev left) ∷ write bytes ∷ [])
  write_pwritev st_h input left nw = some (
    st_h,
    nw,
    pwritev (to_write o.s_pwritev left) ∷ write (or_empty (my_preadv st_h input.iov)) ∷ [],
  )

  pub write_file : Pwritev → StreamCtx Ctx → Input → ℕ → Written
  unfolding write_reader write_pwritev to_write or_empty fallback_reads pwritev_fallback_read
  write_file off st_h input left = write_reader st_h input st_h.reader
  write_file _ st_h input left = write_pwritev st_h input left input.pwritev_nw

  -- The test of what is left after the write.
  pub settled : StreamCtx Ctx → Option ℕ → List Call → Option ℕ → Outcome (StreamCtx Ctx)
  settled st_h nw calls none = faults
  settled st_h nw calls (some zero) = returns st_h (calls ++ (shutdown 1 ∷ want_read true ∷ []))
  settled st_h nw calls (some left) =
      returns (record st_h { written = add_nw st_h.written nw }) (calls ++ (want_write true ∷ []))

  -- After a write; the stream is closed on an error if GOAWAY was received.
  pub after_write : Bool → Written → Outcome (StreamCtx Ctx)
  unfolding settled
  after_write goaway none = faults
  after_write false (some (st_h, none, calls)) = exits 1
  after_write true (some (st_h, none, calls)) =
      settled st_h none (calls ++ (stream_close ∷ [])) (bytes_left st_h)
  after_write goaway (some (st_h, nw, calls)) = settled st_h nw calls (bytes_left st_h)

  must_delay : StreamCtx Ctx → Bool
  must_delay st_h = ltb 0 o.delay_resp_sec && not st_h.delayed && ltb 10000000 st_h.written

  pub write_left : StreamCtx Ctx → Input → Option ℕ → Outcome (StreamCtx Ctx)
  unfolding write_file after_write must_delay
  write_left st_h input none = faults
  write_left st_h input (some zero) = returns st_h (shutdown 1 ∷ want_read true ∷ [])
  write_left st_h input (some left) =
      if must_delay st_h && input.event_ok
      then returns (record st_h { resume_resp = true; delayed = true })
          (add_timer o.delay_resp_sec ∷ want_write false ∷ [])
      else after_write input.goaway (write_file o.s_pwritev st_h input left)

  -- The headers of the answer; the name is not null here.
  unfoldable pub headers_of : Bytes → List (Bytes × Bytes)
  headers_of req_filename =
      (codes ":status", codes "200") ∷ (codes "content-type", select_content_type req_filename) ∷ []

  -- `none` as a name is a null pointer in `ends_with`.
  unfoldable pub send_headers_of : StreamCtx Ctx → Bool → Option Bytes → Outcome (StreamCtx Ctx)
  unfolding headers_of
  send_headers_of st_h headers_ok none = faults
  send_headers_of st_h true (some name) =
      returns (record st_h { headers_sent = true }) (send_headers (headers_of name) ∷ [])
  send_headers_of st_h false (some name) = exits 1

  pub http_server_on_write : StreamCtx Ctx → Input → Outcome (StreamCtx Ctx)
  unfolding write_left send_headers_of
  http_server_on_write st_h input =
      if st_h.headers_sent
      then write_left st_h input (bytes_left st_h)
      else send_headers_of st_h input.headers_ok st_h.req_filename
