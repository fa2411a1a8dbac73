-- ===== src/FileServer/Write/Whole.antt =====
-- The sending of a whole file through its reader.

use equic.Prelude.{
  ◌<◌, ◌≡◌, inl, inr, refl, ap, sym, ◌∙◌, arith, true, false, Option, some, List, [], ◌∷◌, ◌++◌,
  Bytes, codes, length, drop_full, le_or_gt,
}
use equic.Lsquic.Peer.{Sent, nothing, nw_of, followed}
use equic.FileServer.Reader.{Reader}
use equic.FileServer.ContentType.{select_content_type}
use equic.FileServer.Types.{Options, System, StreamCtx, Input}
use equic.FileServer.Write.Step.{plainly, sending, on_write-reader}
use equic.FileServer.Write.Rounds.{TakeAll, rounds, rounds-content}
use equic.FileServer.Write.Parts.{on_write-headers}
use equic.FileServer.Write.{bytes_left, headers_of, write_left, http_server_on_write}

module _ (r : Reader) (o : Options) (system : System (Reader.Ctx r)) where
  open r use {Ctx, IsValid, lsqr_size, content, lsqr_size-content}

  -- The calls of `http_server_on_write` for a stream.
  abbrev pub run : StreamCtx Ctx → List Input → Sent → Option Sent
  run st_h inputs s = rounds (http_server_on_write r (plainly o) system) st_h inputs s

  pub run-sending :
      (inputs : List Input) (st_h : StreamCtx Ctx) (ctx : Ctx) (s : Sent) (whole : Bytes)
      → IsValid ctx
      → 0 < length (content ctx)
      → s.bytes ++ content ctx ≡ whole
      → s.closed ≡ false
      → TakeAll inputs (length (content ctx))
      → run (sending r o system st_h ctx) inputs s
        ≡ some (record s { bytes = whole; closed = true })
  run-sending =
      rounds-content r o system true (http_server_on_write r (plainly o) system)
        (on_write-reader r o system)

  -- A file with no bytes left is closed at once.
  run-empty :
      (inputs : List Input) (input : Input) (st_h : StreamCtx Ctx) (ctx : Ctx) (s : Sent)
      → lsqr_size ctx ≡ 0
      → run (sending r o system st_h ctx) (input ∷ inputs) s ≡ some (record s { closed = true })
  unfolding rounds http_server_on_write bytes_left followed write_left
  run-empty inputs input st_h ctx s e =
      ap
        (λ left.
          followed true (nw_of input.writef_nw)
            (write_left r (plainly o) system (sending r o system st_h ctx) input (some left))
            (λ st_h' s'. run st_h' inputs s') s)
        e

  pub run-content :
      (inputs : List Input) (st_h : StreamCtx Ctx) (ctx : Ctx) (s : Sent)
      → IsValid ctx
      → s.bytes ≡ []
      → s.closed ≡ false
      → TakeAll inputs (length (content ctx))
      → run (sending r o system st_h ctx) inputs s
        ≡ some (record s { bytes = content ctx; closed = true })
  run-content [] st_h ctx s v b c t = absurd t
  run-content (input ∷ inputs) st_h ctx s v b c t = elim (le_or_gt (length (content ctx)) 0) [
    | inl empty ↦
        run-empty inputs input st_h ctx s (omega (arith, lsqr_size-content ctx v))
        ∙ ap (λ bytes. some (record s { bytes = bytes; closed = true }))
            (b ∙ sym (drop_full 0 (content ctx) empty))
    | inr more ↦
        run-sending (input ∷ inputs) st_h ctx s (content ctx) v more
          (ap (λ bytes. bytes ++ content ctx) b) c t
  ]

  -- For every stream that has a reader of a file in a valid state, and whose headers were not sent, with
  -- neither preadv nor a delay, and lsquic taking some bytes of each write, perhaps none, and the last
  -- of them in the end: the peer gets one header block, with status 200 and the content type that goes
  -- with the name, and the bytes of the file, all of them and in order, and the writing side is shut
  -- down. An empty file is no exception.
  pub run-file :
      (st_h : StreamCtx Ctx) (ctx : Ctx) (name : Bytes) (first : Input) (inputs : List Input)
      → IsValid ctx
      → st_h.reader ≡ some ctx
      → st_h.req_filename ≡ some name
      → st_h.headers_sent ≡ false
      → first.headers_ok ≡ true
      → TakeAll inputs (length (content ctx))
      → run st_h (first ∷ inputs) nothing
        ≡ some (record {
          heads =
              ((codes ":status", codes "200")
                ∷ (codes "content-type", select_content_type name)
                ∷ [])
              ∷ [];
          bytes = content ctx;
          closed = true;
        })
  unfolding rounds followed headers_of
  run-file st_h ctx name first inputs v e f h ok t =
      let sent = record nothing { heads = headers_of r o system name ∷ [] } in
      ap
        (λ outcome.
          followed true (nw_of first.writef_nw) outcome (λ st_h' s'. run st_h' inputs s') nothing)
        (on_write-headers r (plainly o) system st_h first name h f ok)
      ∙ ap (λ reader. run (record st_h { headers_sent = true; reader = reader }) inputs sent) e
      ∙ run-content inputs st_h ctx sent v refl refl t
