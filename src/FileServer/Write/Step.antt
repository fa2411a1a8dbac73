-- ===== src/FileServer/Write/Step.antt =====
-- One call of `http_server_on_write` with a reader.

use equic.Prelude.{
  ℕ, zero, suc, ◌-◌, ◌≤◌, ◌<◌, ◌≡◌, ap, ◌∙◌, arith, min, true, false, Option, some, List, [], ◌∷◌,
  ◌++◌, Bytes, length, length-drop, length-take, take-append-drop, take_full,
}
use equic.Lsquic.{write}
use equic.Lsquic.Peer.{Sent, followed}
use equic.FileServer.Reader.{Reader, total, reads, reads-content, content-reads, reads-IsValid}
use equic.FileServer.Types.{off, Options, System, StreamCtx, Input, add_nw}
use equic.FileServer.Write.Parts.{write_left-some, after_write-some}
use equic.FileServer.Write.{bytes_left, settled, after_write, write_file, http_server_on_write}

-- The options with no delay, and with no preadv.
abbrev pub plainly : Options → Options
plainly o = record o { s_pwritev = off; delay_resp_sec = 0 }

module _ (r : Reader) (o : Options) (system : System (Reader.Ctx r)) where
  open r use {Ctx, IsValid, lsqr_size, content, lsqr_size-content}

  -- A stream whose headers were sent, with a reader.
  abbrev pub sending : StreamCtx Ctx → Ctx → StreamCtx Ctx
  sending st_h ctx = record st_h { headers_sent = true; reader = some ctx }

  -- One write through a reader that has bytes left.
  pub on_write-reader :
      (st_h : StreamCtx Ctx) (ctx : Ctx) (input : Input) (n : ℕ)
      → 0 < lsqr_size ctx
      → input.writef_nw ≡ some n
      → http_server_on_write r (plainly o) system (sending st_h ctx) input
        ≡ settled r
            (plainly o)
            system
            (sending st_h (reads r ctx input.counts).1)
            (some n)
            (write (reads r ctx input.counts).0 ∷ [])
            (some (lsqr_size (reads r ctx input.counts).1))
  unfolding http_server_on_write write_file bytes_left
  on_write-reader st_h ctx input n h w =
      write_left-some r (plainly o) system (sending st_h ctx) input (lsqr_size ctx) h
      ∙ ap
          (λ nw. after_write r (plainly o) system input.goaway (
            some (
              sending st_h (reads r ctx input.counts).1,
              nw,
              write (reads r ctx input.counts).0 ∷ [],
            )))
          w
      ∙ after_write-some r (plainly o) system input.goaway
          (sending st_h (reads r ctx input.counts).1) n (write (reads r ctx input.counts).0 ∷ [])

  pub followed-last :
      (st_h : StreamCtx Ctx) (n left : ℕ) (bytes : Bytes)
      (next : StreamCtx Ctx → Sent → Option Sent) (s : Sent)
      → left ≡ 0
      → length bytes ≤ n
      → followed true n
          (settled r (plainly o) system st_h (some n) (write bytes ∷ []) (some left))
          next
          s
        ≡ some (record s { bytes = s.bytes ++ bytes; closed = true })
  unfolding settled followed
  followed-last st_h n zero bytes next s e h =
      ap (λ taken. some (record s { bytes = s.bytes ++ taken; closed = true }))
        (take_full n bytes h)
  followed-last st_h n (suc left) bytes next s e h = absurd (omega (arith, e))

  pub followed-more :
      (st_h : StreamCtx Ctx) (n left : ℕ) (bytes : Bytes)
      (next : StreamCtx Ctx → Sent → Option Sent) (s : Sent)
      → 0 < left
      → length bytes ≤ n
      → s.closed ≡ false
      → followed true n
          (settled r (plainly o) system st_h (some n) (write bytes ∷ []) (some left))
          next
          s
        ≡ next
            (record st_h { written = add_nw st_h.written (some n) })
            (record s { bytes = s.bytes ++ bytes })
  unfolding settled followed
  followed-more st_h n zero bytes next s p h c = absurd (omega arith)
  followed-more st_h n (suc left) bytes next s p h c = rw (take_full n bytes h) (ground (arith, c))

  -- The reads of a write, and what they leave.
  module _ (ctx : Ctx) (counts : List ℕ) (v : IsValid ctx) where
    pub length-content-reads :
        length (content (reads r ctx counts).1) ≡ length (content ctx) - total counts
    length-content-reads =
        ap (λ (bytes : Bytes). length bytes) (content-reads r ctx counts v)
        ∙ length-drop (total counts) (content ctx)

    pub size-reads : lsqr_size (reads r ctx counts).1 ≡ length (content ctx) - total counts
    size-reads =
        lsqr_size-content (reads r ctx counts).1 (reads-IsValid r ctx counts v)
        ∙ length-content-reads

    pub length-reads : length (reads r ctx counts).0 ≤ min (total counts) (length (content ctx))
    length-reads =
        rw (reads-content r ctx counts v) (omega (arith, length-take (total counts) (content ctx)))

    pub reads_split : (reads r ctx counts).0 ++ content (reads r ctx counts).1 ≡ content ctx
    reads_split =
        rw (reads-content r ctx counts v, content-reads r ctx counts v)
          (take-append-drop (total counts) (content ctx))

    pub reads_all : length (content ctx) ≤ total counts → (reads r ctx counts).0 ≡ content ctx
    reads_all h = reads-content r ctx counts v ∙ take_full (total counts) (content ctx) h
