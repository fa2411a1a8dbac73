-- ===== src/FileServer/Hq/Tests.antt =====
-- The request "get a.html", with CR and LF behind it, in two pieces.
use equic.Prelude.{ℕ, ◌≡◌, inl, inr, refl, arith, true, some, List, [], ◌∷◌, Bytes, codes}
use equic.Lsquic.{shutdown, want_write, returns}
use equic.Lsquic.Peer.{nothing}
use equic.FileServer.Samples.{bytes_reader, text, system, options, new_stream, writing}
use equic.FileServer.Hq.Path.{NoNul}
use equic.FileServer.Hq.Whole.{run_hq}
use equic.FileServer.Hq.Served.{joined, run_reads, hq_served, run_reads-served}

abbrev pieces : List (ℕ × Bytes)
pieces = (b'g', codes "et a.h") ∷ (b't', codes "ml\r\n") ∷ []

path-NoNul : NoNul (codes "a.html")
path-NoNul =
    (omega arith, (omega arith, (omega arith, (omega arith, (omega arith, (omega arith, tt))))))

run_reads-served_example :
    (run_reads bytes_reader options system new_stream pieces
      ≡ returns
          (hq_served bytes_reader options system new_stream (joined pieces) (codes "a.html") text)
          (shutdown 0 ∷ want_write true ∷ []))
    × (run_hq bytes_reader options system
          (hq_served bytes_reader options system new_stream (joined pieces) (codes "a.html") text)
          (writing (4 ∷ []) 4 ∷ writing (9 ∷ []) 2 ∷ [])
          nothing
        ≡ some (record { heads = []; bytes = text; closed = true }))
run_reads-served_example =
    run_reads-served bytes_reader options system b'g' b'e' b't' b'a' (codes ".html") (codes "\r\n")
      pieces new_stream text (writing (4 ∷ []) 4 ∷ writing (9 ∷ []) 2 ∷ []) refl (inr refl)
      (inr refl) (inr refl) path-NoNul refl (refl, (refl, tt)) refl refl tt
      (refl, inr (refl, inl (omega arith)))
