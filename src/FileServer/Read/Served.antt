-- ===== src/FileServer/Read/Served.antt =====
-- Whole requests: those that are served, and those that end the server.

use equic.Prelude.{
  ℕ, ◌≡◌, refl, ap, ◌∙◌, true, false, none, some, List, [], ◌∷◌, ◌++◌, Bytes, codes, length, get_or,
}
use equic.Lsquic.{shutdown, want_write, returns}
use equic.Lsquic.Chain.{after, and_then}
use equic.Lsquic.Peer.{nothing}
use equic.Request.{strndup}
use equic.Routes.{Match, group}
use equic.FileServer.Reader.{Reader}
use equic.FileServer.ContentType.{select_content_type}
use equic.FileServer.Types.{Options, System, StreamCtx, Input}
use equic.FileServer.Write.Step.{plainly}
use equic.FileServer.Write.Rounds.{TakeAll}
use equic.FileServer.Write.Whole.{run-file}
use equic.FileServer.Write.Whole
use equic.FileServer.Process.Opened.{process_request-opened}
use equic.FileServer.Read.{
  Arrival, request_pattern, in_root, named, parsed, parse_request, processed, process_parsed,
  end_of_request,
}
use equic.FileServer.Read.Pieces.{Brings, IsEnd, reading, run, run-pieces}

-- The options of the plain file service: nothing is pushed, and no write is immediate.
abbrev pub serving : Options → Options
serving o = record o { push_path = none; s_immediate_write = 0 }

-- The text of a request as a C string.
abbrev pub c_text : Bytes → Bytes
c_text text = strndup (text ++ (0 ∷ []))

module _ (r : Reader) (o : Options) (system : System (Reader.Ctx r)) where
  open r use {Ctx, IsValid, content}

  abbrev pub filename_of : Bytes → ℕ × ℕ → Bytes
  filename_of text m = in_root r o system (group (c_text text) m)

  -- The state that a request leaves.
  abbrev pub served : StreamCtx Ctx → Bytes → Bytes → Ctx → StreamCtx Ctx
  served st_h text filename ctx = record st_h {
    req_fh = true;
    req_buf = text ++ (0 ∷ []);
    req_filename = some filename;
    req_path = some filename;
    reader = some ctx;
  }

  processed-opened :
      (st_h : StreamCtx Ctx) (last : Arrival) (ctx : Ctx)
      → system.create_lsquic_reader_ctx st_h.req_path ≡ some ctx
      → processed r (plainly (serving o)) system last st_h
        ≡ returns (record st_h { reader = some ctx }) (want_write true ∷ shutdown 0 ∷ [])
  unfolding processed and_then after
  processed-opened st_h last ctx e =
      ap (λ outcome. and_then outcome (λ st_h'. returns st_h' (shutdown 0 ∷ [])))
        (process_request-opened r (serving o) system st_h ctx last.input e)

  end_of_request-served :
      (st_h : StreamCtx Ctx) (last : Arrival) (text : Bytes) (ctx : Ctx) (matches : List Match)
      (m : ℕ × ℕ)
      → system.regexec request_pattern (c_text text) ≡ some matches
      → get_or matches 1 none ≡ some m
      → system.create_lsquic_reader_ctx (some (filename_of text m)) ≡ some ctx
      → end_of_request r (plainly (serving o)) system last (reading r o system st_h text)
        ≡ returns (served st_h text (filename_of text m) ctx) (want_write true ∷ shutdown 0 ∷ [])
  unfolding end_of_request parse_request and_then after
  end_of_request-served st_h last text ctx matches m e g c =
      let begun = record st_h { req_fh = true; req_buf = text ++ (0 ∷ []) } in
      ap
        (λ found.
          and_then (parsed r (plainly (serving o)) system begun found)
            (process_parsed r (plainly (serving o)) system last none))
        e
      ∙ ap
          (λ found.
            and_then (named r (plainly (serving o)) system begun found)
              (process_parsed r (plainly (serving o)) system last none))
          g
      ∙ ap (after []) (
          processed-opened
            (record begun {
              req_filename = some (filename_of text m);
              req_path = some (filename_of text m);
            })
            last ctx c)

  -- For every new stream with the plain options (no push, no immediate write, no preadv, no delay), and
  -- every request in any pieces in which the pattern finds a path, for which a file in the document
  -- root has a reader: the calls of `http_server_on_read` return and ask to write; and if lsquic then
  -- takes what the calls of `http_server_on_write` give it, the peer gets one header block with status
  -- 200 and the content type that goes with the name, and the bytes of that file, all of them and in
  -- order, and the writing side is shut down.
  pub run-served :
      (as_ : List Arrival) (last : Arrival) (st_h : StreamCtx Ctx) (text : Bytes)
      (matches : List Match) (m : ℕ × ℕ) (ctx : Ctx) (first : Input) (inputs : List Input)
      → st_h.req_fh ≡ false
      → st_h.headers_sent ≡ false
      → Brings as_ text
      → IsEnd last
      → system.regexec request_pattern (c_text text) ≡ some matches
      → get_or matches 1 none ≡ some m
      → system.create_lsquic_reader_ctx (some (filename_of text m)) ≡ some ctx
      → IsValid ctx
      → first.headers_ok ≡ true
      → TakeAll inputs (length (content ctx))
      → (run r (plainly (serving o)) system st_h (as_ ++ (last ∷ []))
          ≡ returns (served st_h text (filename_of text m) ctx) (want_write true ∷ shutdown 0 ∷ []))
        × (Whole.run r
              (serving o)
              system
              (served st_h text (filename_of text m) ctx)
              (first ∷ inputs)
              nothing
            ≡ some (record {
              heads =
                  ((codes ":status", codes "200")
                    ∷ (codes "content-type", select_content_type (filename_of text m))
                    ∷ [])
                  ∷ [];
              bytes = content ctx;
              closed = true;
            }))
  run-served as_ last st_h text matches m ctx first inputs f h b e x g c v ok t = (
    run-pieces r (plainly (serving o)) system as_ last st_h text f b e
        ∙ end_of_request-served st_h last text ctx matches m x g c,
    run-file r (serving o) system (served st_h text (filename_of text m) ctx) ctx
        (filename_of text m) first inputs v refl refl h ok t,
  )
