-- ===== src/Interop/Rest/Digest.antt =====
-- The reads of a body that is to be digested.
use mathlib.Core.List.{append_assoc, append-nil}
use equic.Prelude.{
  ◌<◌, ◌≡◌, ◌∙◌, refl, sym, arith, Bool, true, false, ◌||◌, ◌==◌, List, [], ◌∷◌, ◌++◌, Bytes,
  length,
}
use equic.Lsquic.{returns}
use equic.Routes.{md5sum}
use equic.Interop.Types.{Resp, md5c, StreamCtx, Input, answer}
use equic.Interop.Rest.{md5_page, digested, finished, taken, read_md5sum, read_body}

-- What the pieces hold.
abbrev pub all_of : List (Bytes × Bool) → Bytes
all_of [] = []
all_of ((bytes, fin) ∷ rest) = bytes ++ all_of rest

-- What the inputs hold.
abbrev pub body_of : List Input → Bytes
body_of [] = []
body_of (input ∷ rest) = all_of input.pieces ++ body_of rest

digested-all_of :
    (ctx : Bytes) (pieces : List (Bytes × Bool)) → digested ctx pieces ≡ ctx ++ all_of pieces
unfolding digested
digested-all_of ctx [] = sym (append-nil ctx)
digested-all_of ctx ((bytes, fin) ∷ rest) =
    digested-all_of (ctx ++ bytes) rest ∙ append_assoc ctx bytes (all_of rest)

-- The read took bytes and did not see the end of the stream.
abbrev pub IsOpen : Input → Type 0
IsOpen input =
    (input.readf_failed ≡ false) × (finished input.pieces ≡ false) × (0 < taken input.pieces)

-- The read saw the end of the stream, or took nothing.
abbrev pub IsLast : Input → Type 0
IsLast input =
    (input.readf_failed ≡ false) × ((finished input.pieces || taken input.pieces == 0) ≡ true)

abbrev pub AreOpen : List Input → Type 0
AreOpen [] = Unit
AreOpen (input ∷ rest) = IsOpen input × AreOpen rest

abbrev pub digesting : StreamCtx → Resp → Bytes → StreamCtx
digesting st_h resp ctx = record st_h {
  headers_read = true;
  interop_handler = md5sum;
  interop_u = md5c resp ctx false;
}

abbrev pub digest_done : StreamCtx → Bytes → Bytes → StreamCtx
digest_done st_h page ctx = record st_h {
  headers_read = true;
  interop_handler = md5sum;
  interop_u = md5c (record { buf = page; sz = length page; off = 0 }) ctx true;
}

module _ (md5 : Bytes → Bytes) where
  pub read_body-open :
      (st_h : StreamCtx) (resp : Resp) (ctx : Bytes) (input : Input)
      → IsOpen input
      → read_body md5 md5sum (digesting st_h resp ctx) input
        ≡ returns (digesting st_h resp (ctx ++ all_of input.pieces)) []
  unfolding read_body read_md5sum
  read_body-open st_h resp ctx input (r, f, t) = ground (arith, digested-all_of ctx input.pieces)

  pub read_body-last :
      (st_h : StreamCtx) (resp : Resp) (ctx : Bytes) (input : Input)
      → IsLast input
      → read_body md5 md5sum (digesting st_h resp ctx) input
        ≡ returns
            (digest_done st_h
              (md5_page (md5 (ctx ++ all_of input.pieces)))
              (ctx ++ all_of input.pieces))
            answer
  unfolding read_body read_md5sum
  read_body-last st_h resp ctx input (r, l) = rw (r, l, digested-all_of ctx input.pieces) refl
