-- ===== src/Interop/Rest/Verify.antt =====
-- The reads of a body that is to be the headers of its request.
use equic.Prelude.{
  ℕ, ◌<◌, ◌≡◌, arith, true, Option, none, some, [], ◌∷◌, ◌++◌, Bytes, codes, same_bytes, length,
  drop, if◌then◌else◌,
}
use equic.Lsquic.{log, returns}
use equic.Request.{Req, bytes_of}
use equic.Routes.{ver_head}
use equic.Interop.Types.{Resp, vhc, StreamCtx, Input, got, answer}
use equic.Interop.Rest.{overwrite, read_needed, read_end, read_ver_head, read_vhc, read_body}

abbrev pub verifying : StreamCtx → Req → Resp → Option Bytes → ℕ → StreamCtx
verifying st_h req resp req_body req_sz = record st_h {
  headers_read = true;
  interop_handler = ver_head;
  req = some req;
  interop_u = vhc resp req_body req_sz;
}

-- The message at the end of the body.
abbrev pub judged : Req → Bytes → Bytes
judged req req_body =
    if same_bytes (bytes_of req.qif_str) req_body
    then codes "request headers and payload check out"
    else codes "request headers and payload are different"

-- A read's bytes at the start of a new buffer.
abbrev pub filled : Bytes → Bytes → Bytes
filled buffer bytes = bytes ++ drop (length bytes) buffer

module _ (md5 : Bytes → Bytes) where
  pub read_body-first :
      (st_h : StreamCtx) (req : Req) (resp : Resp) (input : Input) (buffer : Bytes) (c : ℕ)
      (cs : Bytes)
      → input.buffer ≡ some buffer
      → input.body ≡ got (c ∷ cs)
      → 0 < req.qif_sz
      → read_body md5 ver_head (verifying st_h req resp none 0) input
        ≡ returns (verifying st_h req resp (some (filled buffer (c ∷ cs))) req.qif_sz) []
  unfolding read_body read_vhc read_ver_head read_needed overwrite
  read_body-first st_h req resp input buffer c cs b g q = ground (arith, b, g, q)

  pub read_body-end :
      (st_h : StreamCtx) (req : Req) (resp : Resp) (input : Input) (req_body : Bytes)
      → input.body ≡ got []
      → read_body md5 ver_head (verifying st_h req resp (some req_body) req.qif_sz) input
        ≡ returns
            (verifying st_h req resp (some req_body) req.qif_sz)
            (log (judged req req_body) ∷ answer)
  unfolding read_body read_vhc read_ver_head read_end
  read_body-end st_h req resp input req_body g = ground (arith, g)
