-- ===== src/FileServer/Reader/Capped/Tests.antt =====
-- A capped reader over six bytes, with a limit of four.
use equic.Prelude.{◌≡◌, ◌++◌, arith, [], ◌∷◌, codes}
use equic.FileServer.Reader.{reads}
use equic.FileServer.Reader.Capped.{fresh, capped_reader, reads-capped_reader}
use equic.FileServer.Samples.{bytes_reader, text}

reads-capped_reader_example :
    ((reads
        (capped_reader bytes_reader 4 (omega arith))
        (fresh bytes_reader 4 (omega arith) text)
        (3 ∷ 3 ∷ [])).0
      ≡ codes "<htm")
    × Unit {0}
    × ((reads
            (capped_reader bytes_reader 4 (omega arith))
            (fresh bytes_reader 4 (omega arith) text)
            (3 ∷ 3 ∷ [])).0
          ++ (reads
              (capped_reader bytes_reader 4 (omega arith))
              (fresh bytes_reader 4 (omega arith) text)
              (3 ∷ 3 ∷ [])).1.inner
        ≡ codes "<html>")
reads-capped_reader_example = reads-capped_reader bytes_reader 4 (omega arith) text (3 ∷ 3 ∷ []) tt
