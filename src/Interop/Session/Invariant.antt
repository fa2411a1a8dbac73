-- ===== src/Interop/Session/Invariant.antt =====
-- What holds of a stream between two calls of its handlers.
use equic.Prelude.{
  zero, suc, ◌<◌, ◌^◌, ◌≡◌, refl, Bool, true, false, Option, some, List, [], ◌∷◌, ◌++◌, Bytes,
  length, if◌then◌else◌,
}
use equic.Lsquic.{
  Call, shutdown, want_read, want_write, flush, stream_close, write, send_headers, writef, pwritev,
  push_stream, conn_close, conn_abort, add_timer, free_timer, process_conns, close_fd,
  destroy_reader, log, Outcome, returns, exits, faults,
}
use equic.GenFile.Read.{IsGen}
use equic.Request.{Req}
use equic.Routes.{Handler, error, index_html, md5sum, ver_head, gen_file}
use equic.Interop.Types.{Union, err, ihc, vhc, md5c, gfc, StreamCtx}
use equic.Interop.Session.{Wants, wants_after}

-- The `interop_handler` is one that the interop mode serves, and the member of the union is its own.
unfoldable pub agrees : Handler → Union → Bool
agrees error (err r) = true
agrees index_html (ihc r) = true
agrees ver_head (vhc r req_body req_sz) = true
agrees md5sum (md5c r ctx done) = true
agrees gen_file (gfc g) = true
agrees h u = false

abbrev pub HasReq : Option Req → Type 0
HasReq req = (req' : Req) × (req ≡ some req')

-- The next call asks for no more than the last one did.
abbrev pub IsLess : Wants → Wants → Type 0
IsLess w' w = (w.reads ≡ false → w'.reads ≡ false) × (w.writes ≡ false → w'.writes ≡ false)

pub wants_after-append :
    (calls more : List Call) (w : Wants)
    → wants_after (calls ++ more) w ≡ wants_after more (wants_after calls w)
unfolding wants_after
wants_after-append [] more w = refl
wants_after-append (shutdown zero ∷ calls) more w = wants_after-append calls more _
wants_after-append (shutdown (suc how) ∷ calls) more w = wants_after-append calls more _
wants_after-append (want_read b ∷ calls) more w = wants_after-append calls more _
wants_after-append (want_write b ∷ calls) more w = wants_after-append calls more _
wants_after-append (stream_close ∷ calls) more w = wants_after-append calls more _
wants_after-append (conn_abort ∷ calls) more w = wants_after-append calls more _
wants_after-append (flush ∷ calls) more w = wants_after-append calls more w
wants_after-append (write x ∷ calls) more w = wants_after-append calls more w
wants_after-append (send_headers x ∷ calls) more w = wants_after-append calls more w
wants_after-append (writef ∷ calls) more w = wants_after-append calls more w
wants_after-append (pwritev x ∷ calls) more w = wants_after-append calls more w
wants_after-append (push_stream x ∷ calls) more w = wants_after-append calls more w
wants_after-append (conn_close x ∷ calls) more w = wants_after-append calls more w
wants_after-append (add_timer x ∷ calls) more w = wants_after-append calls more w
wants_after-append (free_timer ∷ calls) more w = wants_after-append calls more w
wants_after-append (process_conns ∷ calls) more w = wants_after-append calls more w
wants_after-append (close_fd x ∷ calls) more w = wants_after-append calls more w
wants_after-append (destroy_reader ∷ calls) more w = wants_after-append calls more w
wants_after-append (log x ∷ calls) more w = wants_after-append calls more w

module _ (text : Bytes) (short : length text < 2 ^ 32) where
  -- Once the headers were read: the member of the union is the handler's, an answer that may be sent
  -- is not empty, and reading is over for a handler that reads nothing more.
  abbrev pub Holds : Handler → Union → Option Req → Wants → Type 0
  Holds error (err r) req w = (0 < r.sz) × (w.reads ≡ false)
  Holds index_html (ihc r) req w = (0 < r.sz) × (w.reads ≡ false)
  Holds ver_head (vhc r req_body req_sz) req w = (0 < r.sz) × HasReq req
  Holds md5sum (md5c r ctx false) req w = w.writes ≡ false
  Holds md5sum (md5c r ctx true) req w = (0 < r.sz) × (w.reads ≡ false)
  Holds gen_file (gfc g) req w = IsGen text short g × HasReq req × (w.reads ≡ false)
  Holds h u req w = ⊥

  abbrev pub HoldsFrom : Bool → StreamCtx → Wants → Type 0
  HoldsFrom false st_h w = w.writes ≡ false
  HoldsFrom true st_h w = Holds st_h.interop_handler st_h.interop_u st_h.req w

  abbrev pub IsSession : StreamCtx → Wants → Type 0
  IsSession st_h w = HoldsFrom st_h.headers_read st_h w

  -- A handler keeps the invariant, and exits only if a call of it failed.
  abbrev pub Stays : Wants → Bool → Outcome StreamCtx → Type 0
  Stays w failed (returns st_h calls) = IsSession st_h (wants_after calls w)
  Stays w failed (exits code) = failed ≡ true
  Stays w failed faults = ⊥

  pub if-Stays :
      (b : Bool) (w : Wants) (failed : Bool) (x y : Outcome StreamCtx)
      → (b ≡ true → Stays w failed x)
      → (b ≡ false → Stays w failed y)
      → Stays w failed (if b then x else y)
  if-Stays true w failed x y t f = t refl
  if-Stays false w failed x y t f = f refl

  pub of_handler-IsSession :
      (st_h : StreamCtx) (h : Handler) (w : Wants)
      → st_h.headers_read ≡ true
      → st_h.interop_handler ≡ h
      → Holds h st_h.interop_u st_h.req w
      → IsSession st_h w
  of_handler-IsSession st_h h w r e holds = rw (r, e) holds

  pub less-Holds :
      (h : Handler) (u : Union) (req : Option Req) (w w' : Wants)
      → IsLess w' w
      → Holds h u req w
      → Holds h u req w'
  less-Holds error (err r) req w w' l (p, e) = (p, l.0 e)
  less-Holds index_html (ihc r) req w w' l (p, e) = (p, l.0 e)
  less-Holds ver_head (vhc r req_body req_sz) req w w' l holds = holds
  less-Holds md5sum (md5c r ctx false) req w w' l e = l.1 e
  less-Holds md5sum (md5c r ctx true) req w w' l (p, e) = (p, l.0 e)
  less-Holds gen_file (gfc g) req w w' l (p, q, e) = (p, q, l.0 e)
  less-Holds h u req w w' l holds = absurd holds

  pub Holds-agrees :
      (h : Handler) (u : Union) (req : Option Req) (w : Wants) → Holds h u req w → agrees h u ≡ true
  unfolding agrees
  Holds-agrees error (err r) req w holds = refl
  Holds-agrees index_html (ihc r) req w holds = refl
  Holds-agrees ver_head (vhc r req_body req_sz) req w holds = refl
  Holds-agrees md5sum (md5c r ctx false) req w holds = refl
  Holds-agrees md5sum (md5c r ctx true) req w holds = refl
  Holds-agrees gen_file (gfc g) req w holds = refl
  Holds-agrees h u req w holds = absurd holds
