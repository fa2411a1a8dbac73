-- ===== src/Interop/Read/Tests.antt =====
-- A request whose headers are verified, in a library in which only /64K matches a pattern.
use equic.Prelude.{◌≡◌, refl, arith, none, some, [], ◌∷◌, codes, length}
use equic.Lsquic.{returns, log}
use equic.Routes.{req_maps, init_map_regexes}
use equic.Interop.Types.{answer}
use equic.Interop.Rest.Verify.{verifying}
use equic.Interop.Samples.{regexec, md5, req_for, new_stream, body_read}
use equic.Interop.Read.{run}
use equic.Interop.Read.Verdict.{run-verify}

run-verify_example :
    (run
        (codes "page")
        regexec
        md5
        (init_map_regexes req_maps)
        (verifying new_stream (req_for (codes "/x")) (record { buf = []; sz = 0; off = 0 }) none 0)
        (body_read (codes "a") ∷ body_read [] ∷ [])
      ≡ returns
          (verifying new_stream
            (req_for (codes "/x"))
            (record { buf = []; sz = 0; off = 0 })
            (some (codes "ab"))
            2)
          (log (codes "request headers and payload check out") ∷ answer))
    × (length (codes "ab") ≡ 2)
run-verify_example =
    run-verify (codes "page") regexec md5 (init_map_regexes req_maps) new_stream
      (req_for (codes "/x")) (record { buf = []; sz = 0; off = 0 }) (body_read (codes "a"))
      (body_read []) (codes "xb") b'a' [] refl refl refl (omega arith) refl
