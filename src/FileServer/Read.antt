-- ===== src/FileServer/Read.antt =====
-- http_server.c, the reading of a request: `parse_request`, `new_hset_fm`, `push_promise`,
-- `http_server_on_read_pushed`, `http_server_on_read_regular` and `http_server_on_read`. Allocations
-- whose result the source does not test succeed.
pub mod Pieces
pub mod Served
pub mod Refused
mod Tests
use equic.Prelude.{
  ℕ, ◌+◌, Bool, true, false, not, ◌&&◌, Option, none, some, List, [], ◌∷◌, ◌++◌, Bytes, codes,
  same_bytes, get_or, if◌then◌else◌,
}
use equic.Lsquic.{
  Call, shutdown, want_write, stream_close, push_stream, Outcome, returns, exits, faults,
}
use equic.Lsquic.Chain.{after, and_then}
use equic.Request.{strndup}
use equic.Routes.{Match, group}
use equic.Interop.Types.{Body, failed, got}
use equic.FileServer.Reader.{Reader}
use equic.FileServer.Types.{Pwritev, off, Options, System, StreamCtx, Input}
use equic.FileServer.Process.{process_request}

-- `struct hset_fm`
pub record HsetFm : Type 0 where
  pub id : ℕ
  pub path : Option Bytes

-- With the counter `hfm_id`, the results of `malloc` and `strdup`, and a path that may be null.
unfoldable pub new_hset_fm : ℕ → Bool → Option Bytes → Option Bytes → Option HsetFm
new_hset_fm hfm_id true str (some path) = some (record { id = hfm_id; path = str })
new_hset_fm hfm_id hfm str path = none

-- What lsquic and `malloc` give to a reading handler.
pub record Arrival : Type 0 where
  pub is_pushed : Bool
  pub hset : Option HsetFm
  pub body : Body
  pub hfm_id : ℕ
  pub hfm_ok : Bool
  pub strdup_ok : Bool
  -- for the write that `process_request` may begin
  pub input : Input

abbrev pub request_pattern : Bytes
request_pattern = codes "GET (.*) HTTP/1.[01]\r\n"

abbrev pub host_pattern : Bytes
host_pattern = codes "\r\nHost: *([[:alnum:].][[:alnum:].]*)\r\n"

-- The headers of a promise for a path, for a host.
abbrev pub promise : Bytes → Bytes → List (Bytes × Bytes)
promise path host =
    (codes ":method", codes "GET")
    ∷ (codes ":path", path)
    ∷ (codes ":authority", host)
    ∷ (codes ":scheme", codes "https")
    ∷ (codes "x-some-header", codes "x-some-value")
    ∷ (codes "x-kenny-status", codes "Oh my God!  They killed Kenny!!!  You bastards!")
    ∷ []

module _ (r : Reader) (o : Options) (system : System (Reader.Ctx r)) where
  open r use {Ctx}

  abbrev pub in_root : Bytes → Bytes
  in_root name = o.document_root ++ (codes "/" ++ name)

  -- The group of the pattern takes part in every match.
  named : StreamCtx Ctx → Match → Outcome (StreamCtx Ctx)
  named st_h none = faults
  named st_h (some m) =
      let filename = in_root (group (strndup st_h.req_buf) m) in
      returns (record st_h { req_filename = some filename; req_path = some filename }) []

  parsed : StreamCtx Ctx → Option (List Match) → Outcome (StreamCtx Ctx)
  parsed st_h none = returns st_h []
  parsed st_h (some matches) = named st_h (get_or matches 1 none)

  unfoldable pub parse_request : StreamCtx Ctx → Outcome (StreamCtx Ctx)
  unfolding parsed named
  parse_request st_h = parsed st_h (system.regexec request_pattern (strndup st_h.req_buf))

  -- `none` is the result -1. The header set is given to lsquic, which may refuse it.
  promised : StreamCtx Ctx → Bytes → Option HsetFm → Option (List Match) → Option (List Call)
  promised st_h path hfm none = none
  promised st_h path none (some matches) = none
  promised st_h path (some hfm) (some matches) = elim (get_or matches 1 none) [
    | none ↦ none
    | some m ↦ some (push_stream (promise path (group (strndup st_h.req_buf) m)) ∷ [])
  ]

  unfoldable pub push_promise : StreamCtx Ctx → Bytes → Arrival → Option (List Call)
  unfolding promised new_hset_fm
  push_promise st_h push_path a =
      promised st_h push_path
        (new_hset_fm a.hfm_id a.hfm_ok (if a.strdup_ok then some push_path else none)
          (some push_path))
        (system.regexec host_pattern (strndup st_h.req_buf))

  -- The end of a handler that has processed a request.
  processed : Arrival → StreamCtx Ctx → Outcome (StreamCtx Ctx)
  processed a st_h =
      and_then (process_request r o system st_h a.input) (λ st_h'. returns st_h' (shutdown 0 ∷ []))

  process_promised : Arrival → StreamCtx Ctx → Option (List Call) → Outcome (StreamCtx Ctx)
  process_promised a st_h none = exits 1
  process_promised a st_h (some calls) = after calls (processed a st_h)

  -- `strcmp` of a null pointer is a fault.
  process_pushing : Arrival → Bytes → StreamCtx Ctx → Option Bytes → Outcome (StreamCtx Ctx)
  process_pushing a push_path st_h none = faults
  process_pushing a push_path st_h (some req_path) =
      if same_bytes req_path push_path
      then processed a st_h
      else process_promised a st_h (push_promise st_h push_path a)

  process_parsed : Arrival → Option Bytes → StreamCtx Ctx → Outcome (StreamCtx Ctx)
  process_parsed a none st_h = processed a st_h
  process_parsed a (some push_path) st_h = process_pushing a push_path st_h st_h.req_path

  -- The end of the stream; a NUL is added to the request.
  unfoldable pub end_of_request : Arrival → StreamCtx Ctx → Outcome (StreamCtx Ctx)
  unfolding processed process_parsed process_pushing process_promised
  end_of_request a st_h =
      and_then (parse_request (record st_h { req_buf = st_h.req_buf ++ (0 ∷ []) }))
        (process_parsed a o.push_path)

  on_read_body : Arrival → StreamCtx Ctx → Body → Outcome (StreamCtx Ctx)
  on_read_body a st_h failed = returns st_h (stream_close ∷ [])
  on_read_body a st_h (got []) = end_of_request a st_h
  on_read_body a st_h (got (c ∷ cs)) =
      returns (record st_h { req_buf = st_h.req_buf ++ (c ∷ cs) }) []

  pub http_server_on_read_regular : StreamCtx Ctx → Arrival → Outcome (StreamCtx Ctx)
  unfolding on_read_body
  http_server_on_read_regular st_h a =
      on_read_body a (if st_h.req_fh then st_h else record st_h { req_fh = true; req_buf = [] })
        a.body

  pushed_path : StreamCtx Ctx → Input → Option Bytes → Outcome (StreamCtx Ctx)
  pushed_path st_h input none = faults
  pushed_path st_h input (some path) =
      and_then
        (process_request r o system
          (record st_h { req_path = some (in_root path); req_filename = some (in_root path) })
          input)
        (λ st_h'. returns st_h' (shutdown 0 ∷ []))

  -- A header set whose path is a null pointer is a fault of `strlen`.
  pushed : StreamCtx Ctx → Input → Option HsetFm → Outcome (StreamCtx Ctx)
  pushed st_h input none = returns st_h (stream_close ∷ [])
  pushed st_h input (some hfm) = pushed_path st_h input hfm.path

  pub http_server_on_read_pushed : StreamCtx Ctx → Arrival → Outcome (StreamCtx Ctx)
  unfolding pushed pushed_path
  http_server_on_read_pushed st_h a = pushed st_h a.input a.hset

  pub http_server_on_read : StreamCtx Ctx → Arrival → Outcome (StreamCtx Ctx)
  unfolding http_server_on_read_regular http_server_on_read_pushed
  http_server_on_read st_h a =
      if a.is_pushed then http_server_on_read_pushed st_h a else http_server_on_read_regular st_h a
