-- ===== src/Interop/Served/Tests.antt =====
-- A GET for the sum of four bytes, and one for a generated file of 64 KiB.
use equic.Prelude.{
  ℕ, ◌-◌, ◌≡◌, inl, inr, refl, arith, true, false, none, some, List, [], ◌∷◌, Bytes, codes, length,
  printed,
}
use equic.Lsquic.{returns}
use equic.Lsquic.Peer.{nothing}
use equic.GenFile.Cyclic.{cyclic}
use equic.GenFile.Size.{unit_of, strtol_from}
use equic.Routes.{ReqMap, pattern_of, req_maps, init_map_regexes, matched, on_match, find_handler}
use equic.Interop.Types.{answer}
use equic.Interop.Samples.{matches_of_64k, regexec, md5, req_for, new_stream, reading}
use equic.Interop.Start.{letter_of, push_paths_of, have_memory}
use equic.Interop.Start.Found.{generates}
use equic.Interop.Rest.{md5_page, finished, taken}
use equic.Interop.Read.{run}
use equic.Interop.Write
use equic.Interop.Write.Whole
use equic.Interop.Write.Generated.{run_generated}
use equic.Interop.Served.{head, after_md5sum, served-md5sum, served-generated}

abbrev idle : Bytes
idle = codes "idle\n"

abbrev writing : List ℕ → ℕ → Write.Input
writing counts nw = record {
  nw = some nw;
  headers_ok = true;
  s_pwritev = false;
  iov = [];
  pwritev_nw = none;
  counts = counts;
  writef_nw = some nw;
  req_ok = λ path. true;
}

abbrev pwriting : List ℕ → ℕ → Write.Input
pwriting iov nw = record (writing [] 0) { s_pwritev = true; iov = iov; pwritev_nw = some nw }

served-md5sum_example :
    (run (codes "page") regexec md5 (init_map_regexes req_maps) new_stream (
        reading (some (req_for (codes "/CGI-bin/md5sum.cgi"))) []
        ∷ reading none ((codes "ab", false) ∷ (codes "c", false) ∷ [])
        ∷ reading none ((codes "d", true) ∷ [])
        ∷ [])
      ≡ returns
          (after_md5sum
            (codes "page")
            regexec
            md5
            (codes "lsws")
            idle
            new_stream
            (req_for (codes "/CGI-bin/md5sum.cgi"))
            (codes "abcd"))
          answer)
    × (Whole.run
          (codes "lsws")
          idle
          (after_md5sum
            (codes "page")
            regexec
            md5
            (codes "lsws")
            idle
            new_stream
            (req_for (codes "/CGI-bin/md5sum.cgi"))
            (codes "abcd"))
          (writing [] 0 ∷ writing [] 100 ∷ writing [] (length (md5_page (codes "4")) - 100) ∷ [])
          nothing
        ≡ some (record {
          heads =
              head (codes "page") regexec md5 (codes "lsws") idle (length (md5_page (codes "4")))
              ∷ [];
          bytes = md5_page (codes "4");
          closed = true;
        }))
unfolding printed finished taken
served-md5sum_example =
    served-md5sum (codes "page") regexec md5 (codes "lsws") idle new_stream
      (req_for (codes "/CGI-bin/md5sum.cgi")) (codes "/CGI-bin/md5sum.cgi")
      (reading (some (req_for (codes "/CGI-bin/md5sum.cgi"))) [])
      (reading none ((codes "d", true) ∷ []))
      (reading none ((codes "ab", false) ∷ (codes "c", false) ∷ []) ∷ []) (writing [] 0)
      (writing [] 100 ∷ writing [] (length (md5_page (codes "4")) - 100) ∷ []) refl refl refl
      (inl refl) refl refl ((refl, refl, omega arith), tt) (refl, refl) refl
      (refl, omega arith, (refl, omega arith, refl))

-- The entry of the table that /64K gets.
abbrev entry : ReqMap
entry = record (pattern_of (codes "^/([0-9][0-9]*)([KMG]?)$")) { compiled = true }

served-generated_example :
    (run
        (codes "page")
        regexec
        md5
        (init_map_regexes req_maps)
        new_stream
        (reading (some (req_for (codes "/64K"))) [] ∷ [])
      ≡ returns
          (generates
            (codes "page")
            regexec
            new_stream
            entry
            (req_for (codes "/64K"))
            (codes "/64K")
            matches_of_64k
            65536)
          answer)
    × (run_generated
          (codes "lsws")
          idle
          (omega arith)
          (generates
            (codes "page")
            regexec
            new_stream
            entry
            (req_for (codes "/64K"))
            (codes "/64K")
            matches_of_64k
            65536)
          (writing [] 0 ∷ pwriting (9 ∷ 0 ∷ []) 9 ∷ pwriting (70000 ∷ []) 65527 ∷ [])
          nothing
        ≡ some (record {
          heads = head (codes "page") regexec md5 (codes "lsws") idle 65536 ∷ [];
          bytes = cyclic idle 0 65536;
          closed = true;
        }))
unfolding init_map_regexes find_handler matched on_match strtol_from unit_of letter_of push_paths_of
    have_memory
served-generated_example =
    served-generated (codes "page") regexec md5 (codes "lsws") idle (omega arith)
      (init_map_regexes req_maps) new_stream (req_for (codes "/64K")) (codes "/64K") entry
      matches_of_64k 1 3 (reading (some (req_for (codes "/64K"))) []) (writing [] 0)
      (pwriting (9 ∷ 0 ∷ []) 9 ∷ pwriting (70000 ∷ []) 65527 ∷ []) (omega arith) refl refl refl
      (inl refl) refl refl refl refl (omega arith) (omega arith) refl refl
      (
        ((omega arith, (omega arith, tt)), refl, λ on. omega arith),
        inr (((omega arith, tt), refl, λ on. omega arith), inl (omega arith)),
      )
