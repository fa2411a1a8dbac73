-- ===== src/Interop/Session/Tests.antt =====
-- A stream that is asked for a generated file of 64 KiB.
use equic.Prelude.{ℕ, ◌≡◌, refl, arith, Bool, true, false, Option, some, List, [], ◌∷◌, codes}
use equic.Lsquic.{Outcome, returns}
use equic.GenFile.{my_interop_preadv, idle_loop}
use equic.GenFile.Size.{gen_size, scaled, strtol_from}
use equic.Routes.{req_maps, init_map_regexes, matched, on_match, find_handler}
use equic.Routes.First.{AllMaps}
use equic.Interop.Types.{StreamCtx, got}
use equic.Interop.Start.Session.{IsAnswered, reads_body}
use equic.Interop.Samples.{regexec, md5, req_for, new_stream, reading, patterns_grouped}
use equic.Interop.Session.{Event, readable, writable, some_fail, run}
use equic.Interop.Session.Invariant.{agrees}
use equic.Interop.Session.Typed.{IsSafe, run-IsTyped}

-- Headers, and then buffers of 2 bytes.
abbrev writing : Option ℕ → Event
writing nw = writable (record {
  nw = some 0;
  headers_ok = true;
  s_pwritev = false;
  iov = [];
  pwritev_nw = some 0;
  counts = 2 ∷ [];
  writef_nw = nw;
  req_ok = λ path. true;
})

-- The writes that come before the request are not asked for.
abbrev asking_64k : List Event
asking_64k =
    writing (some 0)
    ∷ readable
        (record (reading (some (req_for (codes "/64K"))) []) { body = got []; buffer = some [] })
    ∷ writing (some 0)
    ∷ writing (some 2)
    ∷ []

abbrev outcome_of : List Event → Outcome StreamCtx
outcome_of events =
    run (codes "page") regexec md5 (codes "id") (codes "abc") (init_map_regexes req_maps) new_stream
      (record { reads = true; writes = false }) events

-- The handler at the end, if the handlers returned, and whether the union is its own.
abbrev ends_typed : Outcome StreamCtx → Bool
ends_typed (returns st_h calls) = agrees st_h.interop_handler st_h.interop_u
ends_typed outcome = false

asking_64k_ends : ends_typed (outcome_of asking_64k) ≡ true
unfolding agrees run find_handler init_map_regexes gen_size scaled strtol_from matched on_match
    my_interop_preadv idle_loop
asking_64k_ends = refl

asking_64k_works : some_fail asking_64k ≡ false
unfolding some_fail
asking_64k_works = refl

maps-IsAnswered : AllMaps regexec (IsAnswered (codes "page") regexec) (init_map_regexes req_maps)
unfolding init_map_regexes reads_body
maps-IsAnswered = (
  (tt, refl),
  (
    (tt, refl),
    (
      (tt, refl),
      (
        (tt, refl),
        (
          (patterns_grouped [], refl),
          (
            (patterns_grouped [], refl),
            (
              (patterns_grouped [], refl),
              (
                (patterns_grouped [], refl),
                (
                  (patterns_grouped [], refl),
                  (
                    (patterns_grouped [], refl),
                    ((patterns_grouped [], refl), ((patterns_grouped [], refl), tt)),
                  ),
                ),
              ),
            ),
          ),
        ),
      ),
    ),
  ),
)

run-IsTyped_example : IsSafe (some_fail asking_64k) (outcome_of asking_64k)
run-IsTyped_example =
    run-IsTyped (codes "page") regexec md5 (codes "id") (codes "abc") (omega arith)
      (init_map_regexes req_maps) (omega arith) (omega arith) maps-IsAnswered asking_64k new_stream
      refl
      (
        ((omega arith, tt), tt),
        ((omega arith, λ i. refl), (((omega arith, tt), tt), (((omega arith, tt), tt), tt))),
      )
