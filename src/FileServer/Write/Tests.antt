-- ===== src/FileServer/Write/Tests.antt =====
-- The file /www/a.html, of six bytes.
use equic.Prelude.{
  ◌+◌, ◌≡◌, ◌≤◌, ◌<◌, ◌⊎◌, inl, inr, refl, arith, true, none, some, [], ◌∷◌, Bytes, codes,
}
use equic.Lsquic.Peer.{Sent, nothing}
use equic.FileServer.ContentType.{select_content_type}
use equic.FileServer.Types.{StreamCtx, Options, unlimited}
use equic.FileServer.Samples.{bytes_reader, text, system, options, new_stream, writing}
use equic.FileServer.Write.{pwritev_fallback_read}
use equic.FileServer.Write.Delay.{run_delays, run_delays_le}
use equic.FileServer.Write.Preadv.{run-preadv}
use equic.FileServer.Write.Preadv
use equic.FileServer.Write.Fallback.{pwritev_fallback_read_lem}

abbrev named : StreamCtx Bytes
named = record new_stream {
  req_filename = some (codes "/www/a.html");
  reader = some text;
  file_fd = 5;
  file_size = 6;
}

abbrev received : Sent
received = record {
  heads = ((codes ":status", codes "200") ∷ (codes "content-type", codes "text/html") ∷ []) ∷ [];
  bytes = codes "<html>";
  closed = true;
}

run-preadv_example :
    Preadv.run bytes_reader options unlimited tt system named
      (writing [] 0 ∷ writing [] 4 ∷ writing [] 2 ∷ writing [] 1 ∷ [])
      nothing
    ≡ some received
unfolding select_content_type
run-preadv_example =
    run-preadv bytes_reader options unlimited tt system named text refl (omega arith)
      (λ len offset. refl) (codes "/www/a.html") (writing [] 0)
      (writing [] 4 ∷ writing [] 2 ∷ writing [] 1 ∷ []) refl refl refl refl
      (inr (
        refl,
        omega arith,
        omega arith,
        omega arith,
        inr (refl, omega arith, omega arith, omega arith, inl refl),
      ))

pwritev_fallback_read_lem_example :
    ((6 ≤ 4) × (pwritev_fallback_read bytes_reader options system named 4 ≡ some (codes "<html>")))
    ⊎ ((4 < 6) × (pwritev_fallback_read bytes_reader options system named 4 ≡ none))
pwritev_fallback_read_lem_example =
    pwritev_fallback_read_lem bytes_reader options system named text refl (omega arith)
      (omega arith) (λ len offset. refl) 4

-- A delay of three seconds, in a stream that has sent more than ten million bytes.
abbrev delaying : Options
delaying = record options { delay_resp_sec = 3 }

abbrev far : StreamCtx Bytes
far = record named { headers_sent = true; written = 10000001 }

run_delays_le_example :
    run_delays bytes_reader delaying system far
        (some (writing (9 ∷ []) 6) ∷ none ∷ some (writing (9 ∷ []) 6) ∷ [])
      + 0
    ≤ 1
run_delays_le_example =
    run_delays_le bytes_reader delaying system far
      (some (writing (9 ∷ []) 6) ∷ none ∷ some (writing (9 ∷ []) 6) ∷ [])
