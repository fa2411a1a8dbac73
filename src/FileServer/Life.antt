-- ===== src/FileServer/Life.antt =====
-- http_server.c, the beginning and the end of a stream, and the end of a delay:
-- `http_server_on_new_stream`, `http_server_on_close` and `resume_response`.
use equic.Prelude.{true, false, Option, none, some, List, [], ◌∷◌, ◌++◌}
use equic.Lsquic.{
  Call, want_read, want_write, free_timer, process_conns, close_fd, destroy_reader, Outcome,
  returns,
}
use equic.FileServer.Types.{Pwritev, off, StreamCtx}

module _ {Ctx : Type 0} where
  -- `calloc` makes every field 0.
  pub http_server_on_new_stream : Outcome (StreamCtx Ctx)
  http_server_on_new_stream =
      returns
        (record {
          req_fh = false;
          req_buf = [];
          req_filename = none;
          req_path = none;
          headers_sent = false;
          delayed = false;
          reader = none;
          file_fd = 0;
          resume_resp = false;
          written = 0;
          file_size = 0;
        })
        (want_read true ∷ [])

  -- The callback of the event of a delay.
  unfoldable pub resume_response : StreamCtx Ctx → Outcome (StreamCtx Ctx)
  resume_response st_h =
      returns (record st_h { resume_resp = false })
        (want_write true ∷ free_timer ∷ process_conns ∷ [])

  destroyed : Option Ctx → List Call
  destroyed none = []
  destroyed (some ctx) = destroy_reader ∷ []

  closed : Pwritev → StreamCtx Ctx → List Call
  closed off st_h = []
  closed _ st_h = close_fd st_h.file_fd ∷ []

  -- A stream of the file service has no header set of the interop mode.
  pub http_server_on_close : Pwritev → StreamCtx Ctx → List Call
  unfolding destroyed closed
  http_server_on_close s_pwritev st_h = destroyed st_h.reader ++ closed s_pwritev st_h
