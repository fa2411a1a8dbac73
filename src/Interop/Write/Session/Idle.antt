-- ===== src/Interop/Write/Session/Idle.antt =====
-- A generated file keeps what holds of a stream.
use equic.Prelude.{
  ℕ, zero, suc, ◌<◌, ◌^◌, ◌≡◌, ◌∙◌, refl, sym, ap, min, Bool, true, false, Option, none, some, List,
  [], ◌∷◌, ◌++◌, Bytes, length, ◌==◌, if◌then◌else◌, Bool-cases, inl, inr,
}
use mathlib.Core.Path.{subst}
use equic.Lsquic.{Call, shutdown, stream_close, write, send_headers}
use equic.GenFile.{GenFile}
use equic.GenFile.Cyclic.{after-lt}
use equic.GenFile.Read.{IsGen, AreShort, sum, rest_of, behind, my_interop_preadv_lem}
use equic.Request.{Req}
use equic.Routes.{gen_file}
use equic.Interop.Types.{gfc, StreamCtx}
use equic.Interop.Write.{
  Input, headers2, idle_end, idle_written, with_reader, idle_pwritev, idle_body, push_all,
  idle_headers, idle_promised, idle_start, idle_on_write,
}
use equic.Interop.Session.{Wants, wants_after, missing}
use equic.Interop.Session.Invariant.{
  HasReq, IsLess, wants_after-append, IsSession, Stays, if-Stays, of_handler-IsSession,
}
use equic.Interop.Write.Session.Reply.{last_call}

wants_after-nothing : (w : Wants) → wants_after [] w ≡ w
unfolding wants_after
wants_after-nothing w = refl

module _ (litespeed_id on_being_idle : Bytes) (short : length on_being_idle < 2 ^ 32) where
  -- A stream that generates a file.
  abbrev pub Generates : StreamCtx → Wants → Type 0
  Generates st_h w =
      (st_h.headers_read ≡ true)
      × (st_h.interop_handler ≡ gen_file)
      × HasReq st_h.req
      × (w.reads ≡ false)

  Generates-IsSession :
      (st_h : StreamCtx) (g : GenFile) (w w' : Wants) (sent : Bool)
      → Generates st_h w
      → IsGen on_being_idle short g
      → IsLess w' w
      → IsSession on_being_idle short (record st_h { headers_sent = sent; interop_u = gfc g }) w'
  Generates-IsSession st_h g w w' sent (r, h, q, e) gen less =
      of_handler-IsSession on_being_idle short
        (record st_h { headers_sent = sent; interop_u = gfc g }) gen_file w' r h (gen, q, less.0 e)

  idle_end-Stays :
      (st_h : StreamCtx) (g : GenFile) (nw : Option ℕ) (calls : List Call) (w : Wants)
      (failed : Bool)
      → Generates st_h w
      → IsGen on_being_idle short g
      → wants_after calls w ≡ w
      → (missing nw ≡ true → failed ≡ true)
      → Stays on_being_idle short w failed (idle_end litespeed_id on_being_idle st_h g nw calls)
  unfolding idle_end missing
  idle_end-Stays st_h g none calls w failed gs gen quiet f = f refl
  idle_end-Stays st_h g (some nw) calls w failed gs gen quiet f =
      let last = if g.remain == 0 then shutdown 1 ∷ [] else [] in
      subst (λ w'. IsSession on_being_idle short (record st_h { interop_u = gfc g }) w')
        (sym (wants_after-append calls last w ∙ ap (wants_after last) quiet))
        (Generates-IsSession st_h g w (wants_after last w) st_h.headers_sent gs gen
          (last_call (g.remain == 0) w))

  -- The buffers that lsquic offers have fewer than 2 ^ 32 bytes each.
  abbrev pub IsShortInput : Input → Type 0
  IsShortInput input =
      AreShort on_being_idle short input.counts × AreShort on_being_idle short input.iov

  -- A call of lsquic for a write did not fail, or the handler may exit.
  abbrev pub FailsWith : Input → Bool → Type 0
  FailsWith input failed =
      (missing input.writef_nw ≡ true → failed ≡ true)
      × (missing input.pwritev_nw ≡ true → failed ≡ true)

  with_reader-Stays :
      (st_h : StreamCtx) (g : GenFile) (input : Input) (calls : List Call) (w : Wants)
      (failed : Bool)
      → Generates st_h w
      → IsGen on_being_idle short g
      → wants_after calls w ≡ w
      → IsShortInput input
      → FailsWith input failed
      → Stays on_being_idle short w failed
          (with_reader litespeed_id on_being_idle st_h g input calls)
  unfolding with_reader idle_written wants_after
  with_reader-Stays st_h g input calls w failed gs gen quiet s f =
      let n = min (sum on_being_idle short input.counts) g.remain in
      rw (my_interop_preadv_lem on_being_idle short input.counts g gen s.0) (
        idle_end-Stays st_h (behind on_being_idle short g n) input.writef_nw
          (calls ++ (write (rest_of on_being_idle short g n) ∷ [])) w failed gs
          (after-lt on_being_idle g.idle_off n gen)
          (wants_after-append calls (write (rest_of on_being_idle short g n) ∷ []) w ∙ quiet) f.0)

  -- With preadv, after the buffers were filled.
  pwritten-Stays :
      (nw : Option ℕ) (st_h : StreamCtx) (g : GenFile) (input : Input) (bytes : Bytes) (w : Wants)
      (failed : Bool)
      → Generates st_h w
      → IsGen on_being_idle short g
      → IsShortInput input
      → FailsWith input failed
      → (missing nw ≡ true → failed ≡ true)
      → Stays on_being_idle short w failed (elim nw [
        | some zero ↦ with_reader litespeed_id on_being_idle st_h g input (write bytes ∷ [])
        | nw ↦ idle_end litespeed_id on_being_idle st_h g nw (write bytes ∷ [])
      ])
  unfolding wants_after
  pwritten-Stays none st_h g input bytes w failed gs gen s f m =
      idle_end-Stays st_h g none (write bytes ∷ []) w failed gs gen refl m
  pwritten-Stays (some zero) st_h g input bytes w failed gs gen s f m =
      with_reader-Stays st_h g input (write bytes ∷ []) w failed gs gen refl s f
  pwritten-Stays (some (suc n)) st_h g input bytes w failed gs gen s f m =
      idle_end-Stays st_h g (some (suc n)) (write bytes ∷ []) w failed gs gen refl m

  idle_body-Stays :
      (st_h : StreamCtx) (g : GenFile) (input : Input) (w : Wants) (failed : Bool)
      → Generates st_h w
      → IsGen on_being_idle short g
      → IsShortInput input
      → FailsWith input failed
      → Stays on_being_idle short w failed (idle_body litespeed_id on_being_idle st_h g input)
  unfolding idle_body idle_pwritev
  idle_body-Stays st_h g input w failed gs gen s f =
      let n = min (sum on_being_idle short input.iov) g.remain in
      if-Stays on_being_idle short input.s_pwritev w failed _ _
        (λ e.
          rw (idle_pwritev, my_interop_preadv_lem on_being_idle short input.iov g gen s.1)
            (pwritten-Stays input.pwritev_nw st_h (behind on_being_idle short g n) input
              (rest_of on_being_idle short g n) w failed gs
              (after-lt on_being_idle g.idle_off n gen) s f f.1))
        (λ e. with_reader-Stays st_h g input [] w failed gs gen (wants_after-nothing w) s f)

  push_all-quiet :
      (req_ok : Bytes → Bool) (authority : Bytes) (paths : List Bytes) (w : Wants)
      → wants_after (push_all litespeed_id on_being_idle req_ok authority paths) w ≡ w
  unfolding push_all wants_after
  push_all-quiet req_ok authority [] w = refl
  push_all-quiet req_ok authority (path ∷ paths) w = elim (Bool-cases (req_ok path)) [
    | inl e ↦ rw e (push_all-quiet req_ok authority paths w)
    | inr e ↦ rw e (push_all-quiet req_ok authority paths w)
  ]

  after_headers :
      (ok : Bool) (headers : List (Bytes × Bytes)) (w : Wants)
      → IsLess (wants_after (send_headers headers ∷ (if ok then [] else stream_close ∷ [])) w) w
  unfolding wants_after
  after_headers true headers w = (λ e. e, λ e. e)
  after_headers false headers w = (λ e. refl, λ e. refl)

  idle_headers-Stays :
      (st_h : StreamCtx) (g : GenFile) (ok : Bool) (calls : List Call) (w : Wants) (failed : Bool)
      → Generates st_h w
      → IsGen on_being_idle short g
      → wants_after calls w ≡ w
      → Stays on_being_idle short w failed (idle_headers litespeed_id on_being_idle st_h g ok calls)
  unfolding idle_headers
  idle_headers-Stays st_h g ok calls w failed gs gen quiet =
      let headers = headers2 litespeed_id on_being_idle st_h g.remain in
      let more = send_headers headers ∷ (if ok then [] else stream_close ∷ []) in
      subst
        (λ w'.
          IsSession on_being_idle short (record st_h { headers_sent = ok; interop_u = gfc g }) w')
        (sym (wants_after-append calls more w ∙ ap (wants_after more) quiet))
        (Generates-IsSession st_h g w (wants_after more w) ok gs gen (after_headers ok headers w))

  idle_promised-Stays :
      (authority : Option Bytes) (st_h : StreamCtx) (g : GenFile) (input : Input) (w : Wants)
      (failed : Bool)
      → Generates st_h w
      → IsGen on_being_idle short g
      → Stays on_being_idle short w failed
          (idle_promised litespeed_id on_being_idle st_h g input authority)
  unfolding idle_promised
  idle_promised-Stays none st_h g input w failed gs gen =
      idle_headers-Stays st_h g input.headers_ok [] w failed gs gen (wants_after-nothing w)
  idle_promised-Stays (some authority) st_h g input w failed gs gen =
      idle_headers-Stays st_h (record g { push_paths = [] }) input.headers_ok
        (push_all litespeed_id on_being_idle input.req_ok authority g.push_paths) w failed gs gen
        (push_all-quiet input.req_ok authority g.push_paths w)

  idle_start-Stays :
      (req : Option Req) (st_h : StreamCtx) (g : GenFile) (input : Input) (w : Wants)
      (failed : Bool)
      → HasReq req
      → Generates st_h w
      → IsGen on_being_idle short g
      → Stays on_being_idle short w failed (idle_start litespeed_id on_being_idle st_h g input req)
  unfolding idle_start
  idle_start-Stays none st_h g input w failed has gs gen = absurd (cc has.1)
  idle_start-Stays (some req) st_h g input w failed has gs gen =
      idle_promised-Stays req.authority_str st_h g input w failed gs gen

  pub idle_on_write-Stays :
      (st_h : StreamCtx) (g : GenFile) (input : Input) (w : Wants) (failed : Bool)
      → Generates st_h w
      → IsGen on_being_idle short g
      → IsShortInput input
      → FailsWith input failed
      → Stays on_being_idle short w failed
          (idle_on_write litespeed_id on_being_idle st_h (gfc g) input)
  unfolding idle_on_write
  idle_on_write-Stays st_h g input w failed gs gen s f =
      if-Stays on_being_idle short st_h.headers_sent w failed _ _
        (λ e. idle_body-Stays st_h g input w failed gs gen s f)
        (λ e. idle_start-Stays st_h.req st_h g input w failed gs.2 gs gen)
