-- ===== src/Interop/Write.antt =====
-- http_server.c, the writing half of the interop mode: `send_headers2`, `idle_on_write` and
-- `http_server_interop_on_write`. LITESPEED_ID and the text `on_being_idle` are parameters.
pub mod Whole
pub mod Idle
pub mod Generated
pub mod Session
use equic.Prelude.{
  ℕ, zero, ◌+◌, ◌-◌, Bool, true, false, not, Option, none, some, List, [], ◌∷◌, ◌++◌, Bytes, codes,
  printed, take, drop, ◌==◌, if◌then◌else◌,
}
use equic.Lsquic.{
  Call, shutdown, flush, stream_close, write, send_headers, writef, pwritev, push_stream,
  conn_abort, Outcome, returns, exits, faults,
}
use equic.GenFile.{GenFile, my_interop_preadv}
use equic.Request.{Req, get}
use equic.Routes.{Handler, error, index_html, md5sum, ver_head, gen_file, echo}
use equic.Interop.Types.{Resp, Union, blank, err, ihc, vhc, md5c, gfc, StreamCtx}

-- What lsquic and `malloc` give to a call. A result of `none` is -1. The buffers are those that lsquic
-- asks `my_interop_preadv` or `idle_read` to fill before the call of it returns.
pub record Input : Type 0 where
  -- lsquic_stream_write
  pub nw : Option ℕ
  -- lsquic_stream_send_headers succeeds
  pub headers_ok : Bool
  -- lsquic_stream_pwritev, if `s_pwritev` is set
  pub s_pwritev : Bool
  pub iov : List ℕ
  pub pwritev_nw : Option ℕ
  -- lsquic_stream_writef
  pub counts : List ℕ
  pub writef_nw : Option ℕ
  -- new_req for a path
  pub req_ok : Bytes → Bool

abbrev pub with_resp : Union → Resp → Union
with_resp (err old) resp = err resp
with_resp (ihc old) resp = ihc resp
with_resp (vhc old req_body req_sz) resp = vhc resp req_body req_sz
with_resp (md5c old ctx done) resp = md5c resp ctx done
with_resp interop_u resp = interop_u

-- The `resp` that the `switch` on the handler takes; `none` is the assertion.
abbrev pub resp_of : Handler → Union → Option Resp
resp_of error (err resp) = some resp
resp_of index_html (ihc resp) = some resp
resp_of ver_head (vhc resp req_body req_sz) = some resp
resp_of md5sum (md5c resp ctx done) = some resp
resp_of _ interop_u = none

module _ (litespeed_id on_being_idle : Bytes) where
  abbrev pub headers2 : StreamCtx → ℕ → List (Bytes × Bytes)
  headers2 st_h content_len =
      (codes ":status", st_h.resp_status)
      ∷ (codes "server", litespeed_id)
      ∷ (codes "content-type", codes "text/html")
      ∷ (codes "content-length", printed content_len)
      ∷ []

  -- From the label `reply` on.
  sent_reply : StreamCtx → Resp → Option ℕ → Outcome StreamCtx
  sent_reply st_h resp none =
      returns st_h (write (take (resp.sz - resp.off) (drop resp.off resp.buf)) ∷ conn_abort ∷ [])
  sent_reply st_h resp (some nw) =
      returns
        (record st_h { interop_u = with_resp st_h.interop_u (record resp { off = resp.off + nw }) })
        (write (take (resp.sz - resp.off) (drop resp.off resp.buf))
          ∷ flush
          ∷ (if resp.off + nw == resp.sz then shutdown 1 ∷ [] else []))

  pub reply : StreamCtx → Option Resp → Option ℕ → Outcome StreamCtx
  reply st_h none nw = faults
  reply st_h (some resp) nw =
      if resp.sz == 0
      then faults
      else if not st_h.headers_sent
      then returns (record st_h { headers_sent = true }) (send_headers (headers2 st_h resp.sz) ∷ [])
      else sent_reply st_h resp nw

  -- The end of `idle_on_write`, after a write from the generated file.
  idle_end : StreamCtx → GenFile → Option ℕ → List Call → Outcome StreamCtx
  idle_end st_h g none calls = exits 1
  idle_end st_h g (some nw) calls =
      returns (record st_h { interop_u = gfc g })
        (calls ++ (if g.remain == 0 then shutdown 1 ∷ [] else []))

  -- A loop of `idle_read` that does not end counts as a fault.
  idle_written : StreamCtx → Input → List Call → Option (Bytes × GenFile) → Outcome StreamCtx
  idle_written st_h input calls none = faults
  idle_written st_h input calls (some (bytes, g)) =
      idle_end st_h g input.writef_nw (calls ++ (write bytes ∷ []))

  -- From the label `with_reader` on.
  with_reader : StreamCtx → GenFile → Input → List Call → Outcome StreamCtx
  with_reader st_h g input calls =
      idle_written st_h input calls (my_interop_preadv on_being_idle g input.counts)

  -- With `s_pwritev`; a result of 0 goes on at `with_reader`.
  idle_pwritev : StreamCtx → GenFile → Input → Outcome StreamCtx
  idle_pwritev st_h g input = elim (my_interop_preadv on_being_idle g input.iov) [
    | none ↦ faults
    | some (bytes, g') ↦ elim input.pwritev_nw [
      | some zero ↦ with_reader st_h g' input (write bytes ∷ [])
      | nw ↦ idle_end st_h g' nw (write bytes ∷ [])
    ]
  ]

  idle_body : StreamCtx → GenFile → Input → Outcome StreamCtx
  idle_body st_h g input =
      if input.s_pwritev then idle_pwritev st_h g input else with_reader st_h g input []

  -- The promises for the paths that are left, in order.
  push_all : (Bytes → Bool) → Bytes → List Bytes → List Call
  push_all req_ok authority [] = []
  push_all req_ok authority (path ∷ rest) =
      (if req_ok path
        then push_stream (
            (codes ":method", codes "GET")
            ∷ (codes ":path", path)
            ∷ (codes ":authority", authority)
            ∷ (codes ":scheme", codes "https")
            ∷ [])
          ∷ []
        else [])
      ++ push_all req_ok authority rest

  idle_headers : StreamCtx → GenFile → Bool → List Call → Outcome StreamCtx
  idle_headers st_h g headers_ok calls =
      returns (record st_h { headers_sent = headers_ok; interop_u = gfc g })
        (calls
          ++ (send_headers (headers2 st_h g.remain)
              ∷ (if headers_ok then [] else stream_close ∷ [])))

  -- With an authority, the paths are promised in its name.
  idle_promised : StreamCtx → GenFile → Input → Option Bytes → Outcome StreamCtx
  idle_promised st_h g input none = idle_headers st_h g input.headers_ok []
  idle_promised st_h g input (some authority) =
      idle_headers st_h (record g { push_paths = [] }) input.headers_ok
        (push_all input.req_ok authority g.push_paths)

  idle_start : StreamCtx → GenFile → Input → Option Req → Outcome StreamCtx
  idle_start st_h g input none = faults
  idle_start st_h g input (some req) = idle_promised st_h g input req.authority_str

  pub idle_on_write : StreamCtx → Union → Input → Outcome StreamCtx
  idle_on_write st_h (gfc g) input =
      if st_h.headers_sent then idle_body st_h g input else idle_start st_h g input st_h.req
  idle_on_write st_h _ input = faults

  -- The `switch` on the handler.
  dispatch : Handler → StreamCtx → Input → Outcome StreamCtx
  unfolding reply sent_reply idle_on_write idle_start idle_promised idle_headers push_all idle_body
      idle_pwritev with_reader idle_written idle_end
  dispatch gen_file st_h input = idle_on_write st_h st_h.interop_u input
  dispatch h st_h input = reply st_h (resp_of h st_h.interop_u) input.nw

  unfoldable pub http_server_interop_on_write : StreamCtx → Input → Outcome StreamCtx
  unfolding dispatch
  http_server_interop_on_write st_h input = dispatch st_h.interop_handler st_h input
