-- ===== src/Interop/Types.antt =====
-- http_server.c, the part of `struct lsquic_stream_ctx` that the interop mode uses, and its error
-- answers. What lsquic gives back to the handlers is an `Input`. Of the messages of the logger only
-- the verdicts on a body are calls.
use equic.Prelude.{ℕ, ◌-◌, min, Bool, true, Option, List, [], ◌∷◌, Bytes, length, take}
use equic.Lsquic.{Call, shutdown, want_write, Outcome, returns}
use equic.GenFile.{GenFile}
use equic.Request.{Req}
use equic.Routes.{Handler, error}

-- `struct resp`
pub record Resp : Type 0 where
  pub buf : Bytes
  pub sz : ℕ
  pub off : ℕ

-- `interop_u`: the member that was written. In `md5c` the MD5 context is the bytes digested.
pub data Union : Type 0 where
  blank : Union
  err : Resp → Union
  ihc : Resp → Union
  vhc : Resp → Option Bytes → ℕ → Union
  md5c : Resp → Bytes → Bool → Union
  gfc : GenFile → Union

-- `struct lsquic_stream_ctx`; the flags SH_HEADERS_SENT and SH_HEADERS_READ are fields.
pub record StreamCtx : Type 0 where
  pub headers_sent : Bool
  pub headers_read : Bool
  pub interop_handler : Handler
  pub req : Option Req
  pub resp_status : Bytes
  pub interop_u : Union

-- What a read of at most so many bytes gives: -1, or bytes (none at the end of the stream).
pub data Body : Type 0 where
  failed : Body
  got : Bytes → Body

-- What lsquic and `malloc` give to a call: the header set; the pieces handed to `read_md5`, each with
-- its `fin`, and whether `lsquic_stream_readf` fails; the result of `lsquic_stream_read`; the bytes of
-- a new buffer, if there is one; and whether there is memory for each push path.
pub record Input : Type 0 where
  pub hset : Option Req
  pub pieces : List (Bytes × Bool)
  pub readf_failed : Bool
  pub body : Body
  pub buffer : Option Bytes
  pub memory : ℕ → Bool

-- The end of the handler, when the request is complete.
abbrev pub answer : List Call
answer = shutdown 0 ∷ want_write true ∷ []

abbrev pub size_of_err : ℕ
size_of_err = 0x100

-- ERROR_RESP: the message is cut to fit `err.buf` with its NUL.
unfoldable pub error_resp : StreamCtx → Bytes → Bytes → Outcome StreamCtx
error_resp st_h status message =
    returns
      (record st_h {
        interop_handler = error;
        resp_status = status;
        interop_u = err (record {
          buf = take (size_of_err - 1) message;
          sz = min (length message) (size_of_err - 1);
          off = 0;
        });
      })
      answer
