-- ===== src/Interop/Read/Verdict.antt =====
-- What the reads of a body that is to be the headers of its request tell.

use equic.Prelude.{
  ℕ, ◌≤◌, ◌≡◌, refl, arith, Option, none, some, List, [], ◌∷◌, Bytes, length, length-append, drop,
  length-drop,
}
use equic.Lsquic.{log, returns}
use equic.Request.{Req}
use equic.Routes.{ReqMap, Match}
use equic.Interop.Types.{Resp, StreamCtx, Input, got, answer}
use equic.Interop.Rest.Verify.{verifying, judged, filled, read_body-first, read_body-end}
use equic.Lsquic.Chain.{after, and_then}
use equic.Interop.Read.{http_server_interop_on_read, run}

module _ (index_page : Bytes) (regexec : Bytes → Bytes → Option (List Match)) (md5 : Bytes → Bytes)
    (maps : List ReqMap) where
  -- For a stream that waits for the body of a request for the handler that verifies headers, with a
  -- new buffer of the size of the headers, and a first read that takes at least one byte and no more
  -- than that size: if the stream then ends, the verdict compares the headers with the whole buffer,
  -- of which the bytes after those that were read are what the buffer had at first. The stream is
  -- never told to be too short, however few bytes it had.
  pub run-verify :
      (st_h : StreamCtx) (req : Req) (resp : Resp) (first last : Input) (buffer : Bytes) (c : ℕ)
      (cs : Bytes)
      → first.buffer ≡ some buffer
      → length buffer ≡ req.qif_sz
      → first.body ≡ got (c ∷ cs)
      → length (c ∷ cs) ≤ req.qif_sz
      → last.body ≡ got []
      → (run index_page regexec md5 maps (verifying st_h req resp none 0) (first ∷ last ∷ [])
          ≡ returns
              (verifying st_h req resp (some (filled buffer (c ∷ cs))) req.qif_sz)
              (log (judged req (filled buffer (c ∷ cs))) ∷ answer))
        × (length (filled buffer (c ∷ cs)) ≡ req.qif_sz)
  unfolding run http_server_interop_on_read and_then after
  run-verify st_h req resp first last buffer c cs b size g most e = (
    rw
        (
          read_body-first md5 st_h req resp first buffer c cs b g (omega arith),
          read_body-end md5 st_h req resp last (filled buffer (c ∷ cs)) e,
        )
        refl,
    omega (
      arith,
      length-append (c ∷ cs) (drop (length (c ∷ cs)) buffer),
      length-drop (length (c ∷ cs)) buffer,
    ),
  )
