-- ===== src/FileServer/Read/Tests.antt =====
-- A request for /a.html in two pieces, and a request of one byte, in which nothing is found.
use equic.Prelude.{
  ◌≡◌, inl, refl, arith, true, false, none, some, List, [], ◌∷◌, ◌++◌, Bytes, codes,
}
use equic.Lsquic.{want_write, shutdown, returns}
use equic.Lsquic.Peer.{nothing}
use equic.Request.{strndup}
use equic.Interop.Types.{Body, got}
use equic.FileServer.ContentType.{select_content_type}
use equic.FileServer.Samples.{bytes_reader, text, system, options, new_stream, writing}
use equic.FileServer.Write.Step.{plainly}
use equic.FileServer.Write.Whole
use equic.FileServer.Read.{Arrival, end_of_request}
use equic.FileServer.Read.Pieces.{run, reading, run-pieces}
use equic.FileServer.Read.Served.{serving, served, run-served}
use equic.FileServer.Read.Refused.{IsDead, run-refused}

abbrev arrival : Body → Arrival
arrival body = record {
  is_pushed = false;
  hset = none;
  body = body;
  hfm_id = 0;
  hfm_ok = true;
  strdup_ok = true;
  input = writing [] 0;
}

abbrev request : Bytes
request = codes "GET a.html HTTP/1.1\r\n"

abbrev pieces : List Arrival
pieces = arrival (got (codes "GET a.h")) ∷ arrival (got (codes "tml HTTP/1.1\r\n")) ∷ []

run-pieces_example :
    run bytes_reader options system new_stream (pieces ++ (arrival (got []) ∷ []))
    ≡ end_of_request bytes_reader options system
        (arrival (got []))
        (reading bytes_reader options system new_stream request)
run-pieces_example =
    run-pieces bytes_reader options system pieces (arrival (got [])) new_stream request refl
      (
        b'G',
        codes "ET a.h",
        codes "tml HTTP/1.1\r\n",
        refl,
        refl,
        refl,
        (b't', codes "ml HTTP/1.1\r\n", [], refl, refl, refl, refl),
      )
      (refl, refl)

run-served_example :
    (run bytes_reader
        (plainly (serving options))
        system
        new_stream
        (pieces ++ (arrival (got []) ∷ []))
      ≡ returns
          (served bytes_reader options system new_stream request (codes "/www/a.html") text)
          (want_write true ∷ shutdown 0 ∷ []))
    × (Whole.run bytes_reader
          (serving options)
          system
          (served bytes_reader options system new_stream request (codes "/www/a.html") text)
          (writing [] 0 ∷ writing (9 ∷ []) 6 ∷ [])
          nothing
        ≡ some (record {
          heads =
              ((codes ":status", codes "200") ∷ (codes "content-type", codes "text/html") ∷ [])
              ∷ [];
          bytes = codes "<html>";
          closed = true;
        }))
unfolding select_content_type strndup
run-served_example =
    run-served bytes_reader options system pieces (arrival (got [])) new_stream request
      (some (0, 21) ∷ some (4, 10) ∷ []) (4, 10) text (writing [] 0) (writing (9 ∷ []) 6 ∷ []) refl
      refl
      (
        b'G',
        codes "ET a.h",
        codes "tml HTTP/1.1\r\n",
        refl,
        refl,
        refl,
        (b't', codes "ml HTTP/1.1\r\n", [], refl, refl, refl, refl),
      )
      (refl, refl) refl refl refl tt refl (refl, inl (omega arith))

run-refused_example :
    IsDead (
      run bytes_reader options system new_stream
        (arrival (got (codes "x")) ∷ arrival (got []) ∷ []))
unfolding strndup
run-refused_example =
    run-refused bytes_reader options system (arrival (got (codes "x")) ∷ []) (arrival (got []))
      new_stream (codes "x") refl refl refl refl (b'x', [], [], refl, refl, refl, refl) (refl, refl)
      refl
