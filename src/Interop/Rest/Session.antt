-- ===== src/Interop/Rest/Session.antt =====
-- The later calls of `http_server_interop_on_read` keep what holds of a stream.
use equic.Prelude.{
  ℕ, ◌+◌, ◌-◌, ◌<◌, ◌^◌, ◌≡◌, refl, arith, Bool, true, false, ◌||◌, Option, none, some, [], ◌∷◌,
  Bytes, length, ltb, ◌==◌,
}
use equic.Request.{Req, bytes_of}
use equic.Routes.{Handler, error, index_html, md5sum, ver_head, gen_file}
use equic.Interop.Types.{Resp, Union, err, ihc, vhc, md5c, gfc, StreamCtx, Body, failed, got, Input}
use equic.Interop.Rest.{
  finished, taken, read_needed, read_end, read_ver_head, read_vhc, read_md5sum, read_body,
}
use equic.Interop.Session.{Wants, wants_after, missing, unread}
use equic.Interop.Session.Invariant.{HasReq, Holds, IsSession, Stays, if-Stays}

module _ (on_being_idle : Bytes) (short : length on_being_idle < 2 ^ 32) where
  -- A stream that reads the body of a request for this handler.
  abbrev Reads : StreamCtx → Handler → Type 0
  Reads st_h h = (st_h.headers_read ≡ true) × (st_h.interop_handler ≡ h)

  -- A failure in reading is a reason to exit.
  abbrev pub FailsWith : Input → Bool → Type 0
  FailsWith input fails =
      (input.readf_failed ≡ true → fails ≡ true)
      × (unread input.body ≡ true → fails ≡ true)
      × (missing input.buffer ≡ true → fails ≡ true)

  -- The headers are verified.
  abbrev Verifies : StreamCtx → Resp → Type 0
  Verifies st_h resp = Reads st_h ver_head × HasReq st_h.req × (0 < resp.sz)

  Verifies-IsSession :
      (st_h : StreamCtx) (resp : Resp) (req_body : Option Bytes) (req_sz : ℕ) (w : Wants)
      → Verifies st_h resp
      → IsSession on_being_idle short (record st_h { interop_u = vhc resp req_body req_sz }) w
  Verifies-IsSession st_h resp req_body req_sz w ((r, h), q, z) = rw (r, h) (z, q)

  read_needed-Stays :
      (body : Body) (st_h : StreamCtx) (resp : Resp) (req_body : Bytes) (req_sz need : ℕ)
      (w : Wants) (fails : Bool)
      → Verifies st_h resp
      → (unread body ≡ true → fails ≡ true)
      → Stays on_being_idle short w fails (read_needed st_h resp req_body req_sz need body)
  unfolding read_needed wants_after unread
  read_needed-Stays failed st_h resp req_body req_sz need w fails v f = f refl
  read_needed-Stays (got []) st_h resp req_body req_sz need w fails v f =
      Verifies-IsSession st_h resp (some req_body) req_sz _ v
  read_needed-Stays (got (c ∷ cs)) st_h resp req_body req_sz need w fails v f =
      Verifies-IsSession st_h resp _ (req_sz + need) _ v

  read_end-Stays :
      (body : Body) (st_h : StreamCtx) (resp : Resp) (req_body : Bytes) (req_sz : ℕ) (qif : Bytes)
      (w : Wants) (fails : Bool)
      → Verifies st_h resp
      → Stays on_being_idle short w fails (read_end st_h resp req_body req_sz qif body)
  unfolding read_end wants_after
  read_end-Stays failed st_h resp req_body req_sz qif w fails v =
      Verifies-IsSession st_h resp (some req_body) req_sz _ v
  read_end-Stays (got []) st_h resp req_body req_sz qif w fails v =
      Verifies-IsSession st_h resp (some req_body) req_sz _ v
  read_end-Stays (got (c ∷ cs)) st_h resp req_body req_sz qif w fails v =
      Verifies-IsSession st_h resp (some req_body) req_sz _ v

  read_ver_head-Stays :
      (buffer : Option Bytes) (st_h : StreamCtx) (req : Req) (resp : Resp) (req_sz : ℕ)
      (body : Body) (w : Wants) (fails : Bool)
      → Verifies st_h resp
      → (missing buffer ≡ true → fails ≡ true)
      → (unread body ≡ true → fails ≡ true)
      → Stays on_being_idle short w fails (read_ver_head st_h req resp buffer req_sz body)
  unfolding read_ver_head missing
  read_ver_head-Stays none st_h req resp req_sz body w fails v m f = m refl
  read_ver_head-Stays (some req_body) st_h req resp req_sz body w fails v m f =
      if-Stays on_being_idle short (ltb 0 (req.qif_sz - req_sz)) w fails _ _
        (λ e. read_needed-Stays body st_h resp req_body req_sz (req.qif_sz - req_sz) w fails v f)
        (λ e. read_end-Stays body st_h resp req_body req_sz (bytes_of req.qif_str) w fails v)

  read_vhc-Stays :
      (req : Option Req) (old : Option Bytes) (st_h : StreamCtx) (resp : Resp) (req_sz : ℕ)
      (input : Input) (w : Wants) (fails : Bool)
      → HasReq req
      → Verifies st_h resp
      → FailsWith input fails
      → Stays on_being_idle short w fails (read_vhc st_h req (vhc resp old req_sz) input)
  unfolding read_vhc missing
  read_vhc-Stays none old st_h resp req_sz input w fails has v f = absurd (cc has.1)
  read_vhc-Stays (some req) none st_h resp req_sz input w fails has v f =
      read_ver_head-Stays input.buffer st_h req resp req_sz input.body w fails v f.2 f.1
  read_vhc-Stays (some req) (some old) st_h resp req_sz input w fails has v f =
      read_ver_head-Stays (some old) st_h req resp req_sz input.body w fails v (λ e. absurd (cc e))
        f.1

  module _ (md5 : Bytes → Bytes) where
    read_md5sum-Stays :
        (st_h : StreamCtx) (resp : Resp) (ctx : Bytes) (input : Input) (w : Wants) (fails : Bool)
        → Reads st_h md5sum
        → w.writes ≡ false
        → FailsWith input fails
        → Stays on_being_idle short w fails (read_md5sum md5 st_h (md5c resp ctx false) input)
    unfolding read_md5sum wants_after
    read_md5sum-Stays st_h resp ctx input w fails (r, h) off f =
        if-Stays on_being_idle short input.readf_failed w fails _ _ f.0 (λ e.
          if-Stays on_being_idle short (finished input.pieces || taken input.pieces == 0) w fails _
            _ (λ e'. rw (r, h) (omega arith, refl)) (λ e'. rw (r, h) off))

    -- A call that was asked for, once the headers were read.
    pub read_body-Stays :
        (h : Handler) (u : Union) (st_h : StreamCtx) (input : Input) (w : Wants) (fails : Bool)
        → Reads st_h h
        → st_h.interop_u ≡ u
        → Holds on_being_idle short h u st_h.req w
        → w.reads ≡ true
        → FailsWith input fails
        → Stays on_being_idle short w fails (read_body md5 h st_h input)
    unfolding read_body
    read_body-Stays md5sum (md5c resp ctx false) st_h input w fails r eu off on f =
        rw eu (read_md5sum-Stays st_h resp ctx input w fails r off f)
    read_body-Stays ver_head (vhc resp old n) st_h input w fails r eu (z, q) on f =
        rw eu (read_vhc-Stays st_h.req old st_h resp n input w fails q (r, q, z) f)
    read_body-Stays md5sum (md5c resp ctx true) st_h input w fails r eu h on f =
        absurd (cc (h.1, on))
    read_body-Stays error (err resp) st_h input w fails r eu h on f = absurd (cc (h.1, on))
    read_body-Stays index_html (ihc resp) st_h input w fails r eu h on f = absurd (cc (h.1, on))
    read_body-Stays gen_file (gfc g) st_h input w fails r eu h on f = absurd (cc (h.2, on))
    read_body-Stays h u st_h input w fails r eu holds on f = absurd holds
