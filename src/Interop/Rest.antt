-- ===== src/Interop/Rest.antt =====
-- http_server.c, `http_server_interop_on_read` on its later calls for a stream: it reads the body of
-- a request. MD5 is a parameter.
pub mod Digest
pub mod Verify
pub mod Session
use equic.Prelude.{
  ℕ, ◌+◌, ◌-◌, min, Bool, true, false, not, ◌&&◌, ◌||◌, Option, none, some, List, [], ◌∷◌, ◌++◌,
  Bytes, codes, printed, same_bytes, length, take, drop, get_elem?, get_or, ltb, ◌==◌,
  if◌then◌else◌,
}
use equic.Lsquic.{Call, shutdown, want_write, log, Outcome, returns, exits, faults}
use equic.GenFile.{GenFile}
use equic.GenFile.Size.{strtol, gen_size}
use equic.Request.{Req, Method, unset, unsupported, bytes_of}
use equic.Routes.{
  Handler, error, index_html, md5sum, ver_head, gen_file, ReqMap, Match, find_handler,
}
use equic.Interop.Types.{
  Resp, Union, blank, err, ihc, vhc, md5c, gfc, StreamCtx, Body, failed, got, Input, answer,
  size_of_err, error_resp,
}

-- A page with an MD5 sum in hexadecimal.
abbrev pub md5_page : Bytes → Bytes
md5_page md5str =
    codes
      "<html><head><title>MD5 Checksum Result</title></head>\n<body><h1>MD5 Checksum Result</h1>\n<p>MD5 Checksum: <tt>"
    ++ (md5str ++ codes "</tt>\n</body></html>\n")

-- `buf` with bytes written from an index on.
overwrite : Bytes → ℕ → Bytes → Bytes
overwrite buf at bytes = take at buf ++ (bytes ++ drop (at + length bytes) buf)

-- The pieces are digested by `read_md5`.
digested : Bytes → List (Bytes × Bool) → Bytes
digested ctx [] = ctx
digested ctx ((bytes, fin) ∷ rest) = digested (ctx ++ bytes) rest

unfoldable pub finished : List (Bytes × Bool) → Bool
finished [] = false
finished ((bytes, fin) ∷ rest) = fin || finished rest

-- The number of bytes that `lsquic_stream_readf` took.
unfoldable pub taken : List (Bytes × Bool) → ℕ
taken [] = 0
taken ((bytes, fin) ∷ rest) = length bytes + taken rest

-- More of the body is needed.
read_needed : StreamCtx → Resp → Bytes → ℕ → ℕ → Body → Outcome StreamCtx
read_needed st_h resp req_body req_sz need failed = exits 1
read_needed st_h resp req_body req_sz need (got []) =
    returns (record st_h { interop_u = vhc resp (some req_body) req_sz })
      (log (codes "request body too short (does not match headers)") ∷ answer)
read_needed st_h resp req_body req_sz need (got (c ∷ cs)) =
    returns
      (record st_h {
        interop_u = vhc resp (some (overwrite req_body req_sz (c ∷ cs))) (req_sz + need);
      })
      []

-- The body has its size: the next byte must be the end.
read_end : StreamCtx → Resp → Bytes → ℕ → Bytes → Body → Outcome StreamCtx
read_end st_h resp req_body req_sz qif (got []) =
    returns (record st_h { interop_u = vhc resp (some req_body) req_sz })
      (log (
          if same_bytes qif req_body
          then codes "request headers and payload check out"
          else codes "request headers and payload are different")
        ∷ answer)
read_end st_h resp req_body req_sz qif _ =
    returns (record st_h { interop_u = vhc resp (some req_body) req_sz })
      (log (codes "request body too long (does not match headers)") ∷ answer)

read_ver_head : StreamCtx → Req → Resp → Option Bytes → ℕ → Body → Outcome StreamCtx
read_ver_head st_h req resp none req_sz body = exits 1
read_ver_head st_h req resp (some req_body) req_sz body =
    let need = req.qif_sz - req_sz in
    if ltb 0 need
    then read_needed st_h resp req_body req_sz need body
    else read_end st_h resp req_body req_sz (bytes_of req.qif_str) body

read_vhc : StreamCtx → Option Req → Union → Input → Outcome StreamCtx
read_vhc st_h (some req) (vhc resp none req_sz) input =
    read_ver_head st_h req resp input.buffer req_sz input.body
read_vhc st_h (some req) (vhc resp (some req_body) req_sz) input =
    read_ver_head st_h req resp (some req_body) req_sz input.body
read_vhc st_h _ _ input = faults

module _ (md5 : Bytes → Bytes) where
  read_md5sum : StreamCtx → Union → Input → Outcome StreamCtx
  read_md5sum st_h (md5c resp ctx true) input = faults
  read_md5sum st_h (md5c resp ctx false) input =
      let ctx' = digested ctx input.pieces in
      let page = md5_page (md5 ctx') in
      if input.readf_failed
      then exits 1
      else if finished input.pieces || taken input.pieces == 0
      then returns
          (record st_h {
            interop_u = md5c (record { buf = page; sz = length page; off = 0 }) ctx' true;
          })
          answer
      else returns (record st_h { interop_u = md5c resp ctx' false }) []
  read_md5sum st_h _ input = faults

  unfoldable pub read_body : Handler → StreamCtx → Input → Outcome StreamCtx
  unfolding read_md5sum read_vhc read_ver_head digested finished taken read_needed read_end
      overwrite
  read_body md5sum st_h input = read_md5sum st_h st_h.interop_u input
  read_body ver_head st_h input = read_vhc st_h st_h.req st_h.interop_u input
  read_body _ st_h input = faults
