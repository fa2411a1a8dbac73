-- ===== src/FileServer/Hq/Served.antt =====
-- A whole request of the hq mode, and its answer.
use mathlib.Core.List.{append_assoc, append-nil}
use equic.Prelude.{
  ℕ, ◌≡◌, refl, ap, sym, ◌∙◌, true, false, some, List, [], ◌∷◌, ◌++◌, Bytes, length, if◌then◌else◌,
}
use equic.Lsquic.{shutdown, want_write, Outcome, returns}
use equic.Lsquic.Chain.{and_then, after_nothing}
use equic.Lsquic.Peer.{nothing}
use equic.Interop.Types.{got}
use equic.FileServer.Reader.{Reader}
use equic.FileServer.Types.{Options, System, StreamCtx, Input}
use equic.FileServer.Write.Rounds.{TakeAll}
use equic.FileServer.Read.{in_root}
use equic.FileServer.Hq.{requested_path, hq_created, hq_parsed, hq_read, hq_server_on_read}
use equic.FileServer.Hq.Path.{NoNul, AreEnd, EndsWell, IsLetter, requested_path_lem}
use equic.FileServer.Hq.Whole.{run_hq, run_hq-content}

-- Reads of at least one byte each, and the text that they bring.
abbrev pub joined : List (ℕ × Bytes) → Bytes
joined [] = []
joined ((c, cs) ∷ pieces) = (c ∷ cs) ++ joined pieces

AreEnd-append : (ends : Bytes) → AreEnd ends → AreEnd (ends ++ (0 ∷ []))
AreEnd-append [] h = (refl, tt)
AreEnd-append (c ∷ cs) h = (h.0, AreEnd-append cs h.1)

module _ (r : Reader) (o : Options) (system : System (Reader.Ctx r)) where
  open r use {Ctx, IsValid, content}

  -- The calls of `hq_server_on_read` for these reads and the end of the stream.
  pub run_reads : StreamCtx Ctx → List (ℕ × Bytes) → Outcome (StreamCtx Ctx)
  unfolding hq_server_on_read
  run_reads st_h [] = hq_server_on_read r o system st_h (got [])
  run_reads st_h ((c, cs) ∷ pieces) =
      and_then (hq_server_on_read r o system st_h (got (c ∷ cs))) (λ st_h'. run_reads st_h' pieces)

  abbrev pub begun : StreamCtx Ctx → Bytes → StreamCtx Ctx
  begun st_h text = record st_h { req_fh = true; req_buf = text }

  run_reads-begun :
      (pieces : List (ℕ × Bytes)) (st_h : StreamCtx Ctx) (before : Bytes)
      → run_reads (begun st_h before) pieces
        ≡ hq_read r o system (begun st_h (before ++ joined pieces)) (got [])
  unfolding run_reads hq_server_on_read and_then
  run_reads-begun [] st_h before =
      ap (λ bytes. hq_read r o system (begun st_h bytes) (got [])) (sym (append-nil before))
  run_reads-begun ((c, cs) ∷ pieces) st_h before =
      after_nothing (run_reads (begun st_h (before ++ (c ∷ cs))) pieces)
      ∙ run_reads-begun pieces st_h (before ++ (c ∷ cs))
      ∙ ap (λ bytes. hq_read r o system (begun st_h bytes) (got []))
          (append_assoc before (c ∷ cs) (joined pieces))

  -- The first call opens the memory stream.
  run_reads-new :
      (pieces : List (ℕ × Bytes)) (st_h : StreamCtx Ctx)
      → st_h.req_fh ≡ false
      → run_reads st_h pieces ≡ run_reads (begun st_h []) pieces
  unfolding run_reads hq_server_on_read
  run_reads-new [] st_h f =
      ap (λ opened. hq_read r o system (if opened then st_h else begun st_h []) (got [])) f
  run_reads-new ((c, cs) ∷ pieces) st_h f =
      ap
        (λ opened.
          and_then (hq_read r o system (if opened then st_h else begun st_h []) (got (c ∷ cs)))
            (λ st_h'. run_reads st_h' pieces))
        f

  -- The state that a request for a path leaves.
  abbrev pub hq_served : StreamCtx Ctx → Bytes → Bytes → Ctx → StreamCtx Ctx
  hq_served st_h text path ctx = record st_h {
    req_fh = true;
    req_buf = text ++ (0 ∷ []);
    req_filename = some (in_root r o system path);
    req_path = some (in_root r o system path);
    reader = some ctx;
  }

  hq_read-served :
      (st_h : StreamCtx Ctx) (text path : Bytes) (ctx : Ctx)
      → requested_path (text ++ (0 ∷ [])) ≡ some path
      → system.create_lsquic_reader_ctx (some (in_root r o system path)) ≡ some ctx
      → hq_read r o system (begun st_h text) (got [])
        ≡ returns (hq_served st_h text path ctx) (shutdown 0 ∷ want_write true ∷ [])
  unfolding hq_read hq_parsed hq_created
  hq_read-served st_h text path ctx e c =
      ap (hq_parsed r o system (begun st_h (text ++ (0 ∷ [])))) e
      ∙ ap
          (hq_created r o system (record st_h {
            req_fh = true;
            req_buf = text ++ (0 ∷ []);
            req_filename = some (in_root r o system path);
            req_path = some (in_root r o system path);
          }))
          c

  -- For every new stream of the hq mode without preadv, and every request in any pieces that is the
  -- word GET in capital or small letters, a space, a path that is not empty, has no NUL and, unless
  -- it is of one byte, does not end with CR or LF, and any CR, LF and NUL behind it, for which a file in
  -- the document root has a reader: the calls of `hq_server_on_read` end the reading side and ask to write; and if lsquic then
  -- takes what the calls of `hq_server_on_write` give it, the peer gets no headers and the bytes of that
  -- file, all of them and in order, and the writing side is shut down.
  pub run_reads-served :
      (x y z c : ℕ) (cs ends : Bytes) (pieces : List (ℕ × Bytes)) (st_h : StreamCtx Ctx) (ctx : Ctx)
      (inputs : List Input)
      → st_h.req_fh ≡ false
      → IsLetter b'G' x
      → IsLetter b'E' y
      → IsLetter b'T' z
      → NoNul (c ∷ cs)
      → EndsWell cs
      → AreEnd ends
      → joined pieces ≡ x ∷ y ∷ z ∷ b' ' ∷ (c ∷ cs) ++ ends
      → system.create_lsquic_reader_ctx (some (in_root r o system (c ∷ cs))) ≡ some ctx
      → IsValid ctx
      → TakeAll inputs (length (content ctx))
      → (run_reads st_h pieces
          ≡ returns
              (hq_served st_h (joined pieces) (c ∷ cs) ctx)
              (shutdown 0 ∷ want_write true ∷ []))
        × (run_hq r o system (hq_served st_h (joined pieces) (c ∷ cs) ctx) inputs nothing
            ≡ some (record { heads = []; bytes = content ctx; closed = true }))
  run_reads-served x y z c cs ends pieces st_h ctx inputs f gx ey tz n w k e m v t = (
    run_reads-new pieces st_h f
        ∙ run_reads-begun pieces st_h []
        ∙ hq_read-served st_h (joined pieces) (c ∷ cs) ctx
            (ap (λ text. requested_path (text ++ (0 ∷ []))) e
              ∙ ap (λ more. requested_path (x ∷ y ∷ z ∷ b' ' ∷ c ∷ more))
                  (append_assoc cs ends (0 ∷ []))
              ∙ requested_path_lem x y z c cs (ends ++ (0 ∷ [])) gx ey tz n w
                  (AreEnd-append ends k))
            m,
    run_hq-content r o system inputs (hq_served st_h (joined pieces) (c ∷ cs) ctx) ctx v t,
  )
