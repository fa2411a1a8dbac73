-- ===== src/FileServer/Process/Tests.antt =====
-- The file /www/a.html, with an immediate write of at most four bytes.
use equic.Prelude.{◌≡◌, inl, inr, refl, arith, true, some, [], ◌∷◌, Bytes, codes}
use equic.Lsquic.Peer.{nothing, followed}
use equic.FileServer.ContentType.{select_content_type}
use equic.FileServer.Types.{StreamCtx, Options}
use equic.FileServer.Samples.{bytes_reader, text, system, options, new_stream, writing}
use equic.FileServer.Write.Step.{plainly}
use equic.FileServer.Write.Whole.{run}
use equic.FileServer.Process.{process_request}
use equic.FileServer.Process.Whole.{run-immediate}

abbrev requested : StreamCtx Bytes
requested = record new_stream {
  req_filename = some (codes "/www/a.html");
  req_path = some (codes "/www/a.html");
}

abbrev immediate : Options
immediate = record options { s_immediate_write = 4 }

run-immediate_example :
    followed true 4
      (process_request bytes_reader (plainly immediate) system requested (writing (9 ∷ []) 4))
      (λ st_h s. run bytes_reader immediate system st_h (writing (5 ∷ []) 2 ∷ []) s)
      nothing
    ≡ some (record {
      heads =
          ((codes ":status", codes "200") ∷ (codes "content-type", codes "text/html") ∷ []) ∷ [];
      bytes = codes "<html>";
      closed = true;
    })
unfolding select_content_type
run-immediate_example =
    run-immediate bytes_reader immediate (omega arith) system requested text (codes "/www/a.html")
      (writing (9 ∷ []) 4) (writing (5 ∷ []) 2 ∷ []) tt refl refl refl (omega arith) (omega arith)
      refl (inr (refl, inl (omega arith)))
