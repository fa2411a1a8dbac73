-- ===== src/FileServer/Write/Parts.antt =====
-- The parts of `http_server_on_write` with no delay and no error.

use equic.Prelude.{
  ℕ, zero, suc, ◌<◌, ◌≡◌, refl, arith, Bool, true, false, Option, some, List, [], ◌∷◌, ◌++◌, Bytes,
}
use equic.Lsquic.{Call, want_write, send_headers, returns}
use equic.FileServer.Reader.{Reader}
use equic.FileServer.Types.{Options, System, StreamCtx, Input, add_nw}
use equic.FileServer.Write.{
  bytes_left, headers_of, settled, after_write, write_file, write_left, http_server_on_write,
}

abbrev pub undelayed : Options → Options
undelayed o = record o { delay_resp_sec = 0 }

module _ (r : Reader) (o : Options) (system : System (Reader.Ctx r)) where
  open r use {Ctx}

  pub settled-some :
      (st_h : StreamCtx Ctx) (nw : Option ℕ) (calls : List Call) (left : ℕ)
      → 0 < left
      → settled r (undelayed o) system st_h nw calls (some left)
        ≡ returns
            (record st_h { written = add_nw st_h.written nw })
            (calls ++ (want_write true ∷ []))
  unfolding settled
  settled-some st_h nw calls zero h = absurd (omega arith)
  settled-some st_h nw calls (suc left) h = refl

  pub write_left-some :
      (st_h : StreamCtx Ctx) (input : Input) (left : ℕ)
      → 0 < left
      → write_left r (undelayed o) system st_h input (some left)
        ≡ after_write r
            (undelayed o)
            system
            input.goaway
            (write_file r (undelayed o) system o.s_pwritev st_h input left)
  unfolding write_left
  write_left-some st_h input zero h = absurd (omega arith)
  write_left-some st_h input (suc left) h = refl

  pub after_write-some :
      (goaway : Bool) (st_h : StreamCtx Ctx) (n : ℕ) (calls : List Call)
      → after_write r (undelayed o) system goaway (some (st_h, some n, calls))
        ≡ settled r
            (undelayed o)
            system
            st_h
            (some n)
            calls
            (bytes_left r (undelayed o) system st_h)
  unfolding after_write
  after_write-some true st_h n calls = refl
  after_write-some false st_h n calls = refl

  pub on_write-headers :
      (st_h : StreamCtx Ctx) (input : Input) (name : Bytes)
      → st_h.headers_sent ≡ false
      → st_h.req_filename ≡ some name
      → input.headers_ok ≡ true
      → http_server_on_write r o system st_h input
        ≡ returns
            (record st_h { headers_sent = true })
            (send_headers (headers_of r o system name) ∷ [])
  unfolding http_server_on_write
  on_write-headers st_h input name h f ok = ground (arith, h, f, ok)
