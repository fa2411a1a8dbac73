-- ===== src/GenFile/Tests.antt =====
-- A short text in place of the long one.
use equic.Prelude.{some, ◌≡◌, ◌^◌, ◌*◌, refl, arith, none, [], Bytes, codes}
use equic.GenFile.{GenFile, idle_loop, idle_read}
use equic.GenFile.Cyclic.{cyclic, after}
use equic.GenFile.Read.{idle_read_lem}
use equic.GenFile.Stuck.{idle_loop-stuck}

abbrev text : Bytes
text = codes "idle\n"

abbrev gfc : GenFile
gfc = record { push_paths = []; remain = 9; idle_off = 3 }

twelve_read :
    idle_read text gfc 12
    ≡ some (codes "e\nidle\nid", record { push_paths = []; remain = 0; idle_off = 2 })
unfolding idle_loop
twelve_read = refl

idle_read_lem_example :
    idle_read text gfc 7
    ≡ some (codes "e\nidle\n", record { push_paths = []; remain = 2; idle_off = 0 })
unfolding cyclic after
idle_read_lem_example = idle_read_lem text (omega arith) gfc 7 (omega arith) (omega arith)

idle_loop-stuck_example : idle_loop text 1000 (1 * 2 ^ 32) gfc ≡ none
idle_loop-stuck_example =
    idle_loop-stuck text (omega arith) 1000 1 gfc (omega arith) (omega arith) (omega arith)
