-- ===== src/Interop/Read.antt =====
-- http_server.c, `http_server_interop_on_read`.
pub mod Answers
pub mod Verdict
pub mod Session
mod Tests
use equic.Prelude.{true, not, ◌++◌, Option, List, [], ◌∷◌, Bytes, if◌then◌else◌}
use equic.Lsquic.{Call, Outcome, returns, exits, faults}
use equic.Lsquic.Chain.{after, and_then}
use equic.Routes.{ReqMap, Match}
use equic.Interop.Types.{StreamCtx, Input}
use equic.Interop.Start.{start}
use equic.Interop.Rest.{read_body}

module _ (index_page : Bytes) (regexec : Bytes → Bytes → Option (List Match)) (md5 : Bytes → Bytes)
    (maps : List ReqMap) where
  unfoldable pub http_server_interop_on_read : StreamCtx → Input → Outcome StreamCtx
  unfolding start read_body
  http_server_interop_on_read st_h input =
      if not st_h.headers_read
      then start index_page regexec maps input.memory
          (record st_h { headers_read = true; req = input.hset }) input.hset
      else read_body md5 st_h.interop_handler st_h input

  -- The calls of the handler for a stream, one after the other.
  pub run : StreamCtx → List Input → Outcome StreamCtx
  unfolding http_server_interop_on_read and_then after
  run st_h [] = returns st_h []
  run st_h (input ∷ inputs) =
      and_then (http_server_interop_on_read st_h input) (λ st_h'. run st_h' inputs)
