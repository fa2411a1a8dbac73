-- ===== src/Interop/Write/Session/Reply.antt =====
-- An answer from a buffer keeps what holds of a stream.
use equic.Prelude.{
  ℕ, ◌+◌, ◌<◌, ◌^◌, ◌≡◌, ◌∙◌, refl, ap, arith, Bool, true, false, not, Option, none, some, [], ◌∷◌,
  Bytes, length, ◌==◌, if◌then◌else◌,
}
use equic.Lsquic.{shutdown}
use equic.Request.{Req}
use equic.Routes.{Handler, error, index_html, md5sum, ver_head, gen_file}
use equic.Interop.Types.{Resp, Union, err, ihc, vhc, md5c, gfc, StreamCtx}
use equic.Interop.Write.{with_resp, resp_of, sent_reply, reply}
use equic.Interop.Session.{Wants, wants_after}
use equic.Interop.Session.Invariant.{
  IsLess, Holds, Stays, if-Stays, of_handler-IsSession, less-Holds,
}

pub last_call :
    (b : Bool) (w : Wants) → IsLess (wants_after (if b then shutdown 1 ∷ [] else []) w) w
unfolding wants_after
last_call true w = (λ e. e, λ e. refl)
last_call false w = (λ e. e, λ e. e)

module _ (litespeed_id on_being_idle : Bytes) (short : length on_being_idle < 2 ^ 32) where
  -- The answer of a handler, which may be written.
  abbrev pub MayReply : Handler → Union → Option Req → Wants → Resp → Type 0
  MayReply h u req w resp =
      Holds on_being_idle short h u req w × (resp_of h u ≡ some resp) × (0 < resp.sz)

  with_resp-Holds :
      (h : Handler) (u : Union) (req : Option Req) (w : Wants) (resp resp' : Resp)
      → MayReply h u req w resp
      → 0 < resp'.sz
      → Holds on_being_idle short h (with_resp u resp') req w
  with_resp-Holds error (err r) req w resp resp' m p = (p, m.0.1)
  with_resp-Holds index_html (ihc r) req w resp resp' m p = (p, m.0.1)
  with_resp-Holds ver_head (vhc r req_body req_sz) req w resp resp' m p = (p, m.0.1)
  with_resp-Holds md5sum (md5c r ctx false) req w resp resp' m p = m.0
  with_resp-Holds md5sum (md5c r ctx true) req w resp resp' m p = (p, m.0.1)
  with_resp-Holds gen_file (gfc g) req w resp resp' m p = m.0
  with_resp-Holds h u req w resp resp' m p = absurd m.0

  sent_reply-Stays :
      (st_h : StreamCtx) (resp : Resp) (nw : Option ℕ) (w : Wants) (failed : Bool)
      → st_h.headers_read ≡ true
      → MayReply st_h.interop_handler st_h.interop_u st_h.req w resp
      → Stays on_being_idle short w failed (sent_reply litespeed_id on_being_idle st_h resp nw)
  unfolding sent_reply wants_after
  sent_reply-Stays st_h resp none w failed r m =
      of_handler-IsSession on_being_idle short st_h st_h.interop_handler
        (record { reads = false; writes = false }) r refl
        (less-Holds on_being_idle short st_h.interop_handler st_h.interop_u st_h.req w
          (record { reads = false; writes = false }) (λ e. refl, λ e. refl) m.0)
  sent_reply-Stays st_h resp (some nw) w failed r m =
      let u' = with_resp st_h.interop_u (record resp { off = resp.off + nw }) in
      let w' = wants_after (if resp.off + nw == resp.sz then shutdown 1 ∷ [] else []) w in
      of_handler-IsSession on_being_idle short (record st_h { interop_u = u' }) st_h.interop_handler
        w' r refl
        (less-Holds on_being_idle short st_h.interop_handler u' st_h.req w w'
          (last_call (resp.off + nw == resp.sz) w)
          (with_resp-Holds st_h.interop_handler st_h.interop_u st_h.req w resp
            (record resp { off = resp.off + nw }) m m.2))

  reply-Stays :
      (st_h : StreamCtx) (resp : Resp) (nw : Option ℕ) (w : Wants) (failed : Bool)
      → st_h.headers_read ≡ true
      → MayReply st_h.interop_handler st_h.interop_u st_h.req w resp
      → Stays on_being_idle short w failed (reply litespeed_id on_being_idle st_h (some resp) nw)
  unfolding reply wants_after
  reply-Stays st_h resp nw w failed r m =
      if-Stays on_being_idle short (resp.sz == 0) w failed _ _ (λ e. absurd (empty resp.sz e m.2))
        (λ e.
          if-Stays on_being_idle short (not st_h.headers_sent) w failed _ _
            (λ e'.
              of_handler-IsSession on_being_idle short (record st_h { headers_sent = true })
                st_h.interop_handler w r refl m.0)
            (λ e'. sent_reply-Stays st_h resp nw w failed r m))
    where
      empty : (n : ℕ) → (n == 0) ≡ true → 0 < n → ⊥
      empty n e h = ground arith

  pub replied-Stays :
      (h : Handler) (u : Union) (resp : Resp) (st_h : StreamCtx) (nw : Option ℕ) (w : Wants)
      (failed : Bool)
      → st_h.headers_read ≡ true
      → st_h.interop_handler ≡ h
      → st_h.interop_u ≡ u
      → MayReply h u st_h.req w resp
      → Stays on_being_idle short w failed
          (reply litespeed_id on_being_idle st_h (resp_of h st_h.interop_u) nw)
  replied-Stays h u resp st_h nw w failed r eh eu m =
      rw (ap (resp_of h) eu ∙ m.1) (reply-Stays st_h resp nw w failed r (rw (eh, eu) m))
