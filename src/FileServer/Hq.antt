-- ===== src/FileServer/Hq.antt =====
-- http_server.c, the hq mode, which serves files without HTTP/3: `hq_server_on_read` and
-- `hq_server_on_write`.
pub mod Path
pub mod Whole
pub mod Served
mod Tests
use equic.Prelude.{
  ℕ, zero, suc, ◌+◌, Bool, true, false, ◌&&◌, ◌||◌, Option, none, some, List, [], ◌∷◌, ◌++◌, Bytes,
  codes, length, drop, ◌==◌, if◌then◌else◌,
}
use equic.Lsquic.{Call, shutdown, want_write, stream_close, write, Outcome, returns, exits, faults}
use equic.Request.{strndup}
use equic.Routes.{same_letters}
use equic.Interop.Types.{Body, failed, got}
use equic.FileServer.Reader.{Reader, reads}
use equic.FileServer.Types.{Options, System, StreamCtx, Input}
use equic.FileServer.Write.{bytes_left, settled}
use equic.FileServer.Read.{in_root}

-- The text before the first space, as `strchr` finds it; `none` if there is none.
pub before_space : Bytes → Option Bytes
before_space [] = none
before_space (c ∷ cs) =
    if c == b' '
    then some []
    else elim (before_space cs) [ none ↦ none | some word ↦ some (c ∷ word) ]

-- A byte that the loop at the end of a request replaces by a NUL.
abbrev pub is_end : ℕ → Bool
is_end c = c == 0 || c == b'\r' || c == b'\n'

is_nil : Bytes → Bool
is_nil [] = true
is_nil (c ∷ cs) = false

pub trim_end : Bytes → Bytes
unfolding is_nil
trim_end [] = []
trim_end (c ∷ cs) = let rest = trim_end cs in if is_nil rest && is_end c then [] else c ∷ rest

-- The path, which begins behind the space; the loop does not reach its first byte.
pub path_from : Bytes → Bytes
unfolding trim_end
path_from [] = []
path_from (c ∷ cs) = strndup (c ∷ trim_end cs)

path_after : Bytes → Option Bytes → Option Bytes
path_after req_buf none = none
path_after req_buf (some method) =
    if length method == 3 && same_letters method (codes "GET")
    then some (path_from (drop 4 req_buf))
    else none

-- The path in a request, which ends with a NUL; `none` if it is refused.
unfoldable pub requested_path : Bytes → Option Bytes
unfolding path_after before_space path_from
requested_path req_buf = path_after req_buf (before_space (strndup req_buf))

module _ (r : Reader) (o : Options) (system : System (Reader.Ctx r)) where
  open r use {Ctx}

  hq_created : StreamCtx Ctx → Option Ctx → Outcome (StreamCtx Ctx)
  hq_created st_h none = returns st_h (stream_close ∷ [])
  hq_created st_h (some ctx) =
      returns (record st_h { reader = some ctx }) (shutdown 0 ∷ want_write true ∷ [])

  hq_parsed : StreamCtx Ctx → Option Bytes → Outcome (StreamCtx Ctx)
  hq_parsed st_h none = returns st_h (stream_close ∷ [])
  hq_parsed st_h (some path) =
      let filename = in_root r o system path in
      hq_created (record st_h { req_filename = some filename; req_path = some filename })
        (system.create_lsquic_reader_ctx (some filename))

  hq_read : StreamCtx Ctx → Body → Outcome (StreamCtx Ctx)
  hq_read st_h failed = returns st_h (stream_close ∷ [])
  hq_read st_h (got []) =
      hq_parsed (record st_h { req_buf = st_h.req_buf ++ (0 ∷ []) })
        (requested_path (st_h.req_buf ++ (0 ∷ [])))
  hq_read st_h (got (c ∷ cs)) = returns (record st_h { req_buf = st_h.req_buf ++ (c ∷ cs) }) []

  pub hq_server_on_read : StreamCtx Ctx → Body → Outcome (StreamCtx Ctx)
  unfolding hq_read hq_parsed hq_created
  hq_server_on_read st_h body =
      hq_read (if st_h.req_fh then st_h else record st_h { req_fh = true; req_buf = [] }) body

  -- The stream is closed on an error, with or without GOAWAY.
  hq_written : StreamCtx Ctx → Option ℕ → List Call → Outcome (StreamCtx Ctx)
  hq_written st_h none calls = returns st_h (calls ++ (stream_close ∷ []))
  hq_written st_h (some nw) calls =
      settled r o system st_h (some nw) calls (bytes_left r o system st_h)

  -- With no reader the function pointers are null.
  hq_write : StreamCtx Ctx → Input → Option Ctx → Outcome (StreamCtx Ctx)
  hq_write st_h input none = faults
  hq_write st_h input (some ctx) =
      let (bytes, ctx') = reads r ctx input.counts in
      hq_written (record st_h { reader = some ctx' }) input.writef_nw (write bytes ∷ [])

  pub hq_server_on_write : StreamCtx Ctx → Input → Outcome (StreamCtx Ctx)
  unfolding hq_write hq_written
  hq_server_on_write st_h input = hq_write st_h input st_h.reader
