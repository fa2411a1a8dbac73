-- ===== src/Interop/Write/Session.antt =====
-- `http_server_interop_on_write` keeps what holds of a stream.
pub mod Reply
pub mod Idle
use equic.Prelude.{
  ℕ, zero, suc, ◌+◌, ◌<◌, ◌^◌, ◌≡◌, ◌∙◌, refl, sym, ap, arith, min, Bool, true, false, not, Option,
  none, some, List, [], ◌∷◌, ◌++◌, Bytes, length, ◌==◌, if◌then◌else◌, Bool-cases, inl, inr,
}
use mathlib.Core.Path.{subst}
use equic.Lsquic.{Call, shutdown, stream_close, write, send_headers}
use equic.GenFile.{GenFile}
use equic.GenFile.Cyclic.{after-lt}
use equic.GenFile.Read.{IsGen, AreShort, sum, rest_of, behind, my_interop_preadv_lem}
use equic.Request.{Req}
use equic.Routes.{Handler, error, index_html, md5sum, ver_head, gen_file}
use equic.Interop.Types.{Resp, Union, err, ihc, vhc, md5c, gfc, StreamCtx}
use equic.Interop.Write.{
  Input, with_resp, resp_of, headers2, sent_reply, reply, idle_end, idle_written, with_reader,
  idle_pwritev, idle_body, push_all, idle_headers, idle_promised, idle_start, idle_on_write,
  dispatch, http_server_interop_on_write,
}
use equic.Interop.Session.{Wants, wants_after, missing}
use equic.Interop.Session.Invariant.{
  HasReq, IsLess, HoldsFrom, wants_after-append, Holds, IsSession, Stays, if-Stays,
  of_handler-IsSession, less-Holds,
}
use equic.Interop.Write.Session.Reply.{last_call, MayReply, replied-Stays}
use equic.Interop.Write.Session.Idle.{IsShortInput, FailsWith, Generates, idle_on_write-Stays}

module _ (litespeed_id on_being_idle : Bytes) (short : length on_being_idle < 2 ^ 32) where
  dispatch-Stays :
      (h : Handler) (u : Union) (st_h : StreamCtx) (input : Input) (w : Wants) (failed : Bool)
      → st_h.headers_read ≡ true
      → st_h.interop_handler ≡ h
      → st_h.interop_u ≡ u
      → Holds on_being_idle short h u st_h.req w
      → w.writes ≡ true
      → IsShortInput litespeed_id on_being_idle short input
      → FailsWith litespeed_id on_being_idle short input failed
      → Stays on_being_idle short w failed (dispatch litespeed_id on_being_idle h st_h input)
  unfolding dispatch
  dispatch-Stays gen_file (gfc g) st_h input w failed r eh eu (gen, q, reads) on s f = rw eu (
      idle_on_write-Stays litespeed_id on_being_idle short st_h g input w failed (r, eh, q, reads)
        gen s f)
  dispatch-Stays md5sum (md5c resp ctx false) st_h input w failed r eh eu off on s f =
      absurd (cc (off, on))
  dispatch-Stays md5sum (md5c resp ctx true) st_h input w failed r eh eu holds on s f =
      replied-Stays litespeed_id on_being_idle short md5sum (md5c resp ctx true) resp st_h input.nw
        w failed r eh eu (holds, refl, holds.0)
  dispatch-Stays error (err resp) st_h input w failed r eh eu holds on s f =
      replied-Stays litespeed_id on_being_idle short error (err resp) resp st_h input.nw w failed r
        eh eu (holds, refl, holds.0)
  dispatch-Stays index_html (ihc resp) st_h input w failed r eh eu holds on s f =
      replied-Stays litespeed_id on_being_idle short index_html (ihc resp) resp st_h input.nw w
        failed r eh eu (holds, refl, holds.0)
  dispatch-Stays ver_head (vhc resp b n) st_h input w failed r eh eu holds on s f =
      replied-Stays litespeed_id on_being_idle short ver_head (vhc resp b n) resp st_h input.nw w
        failed r eh eu (holds, refl, holds.0)
  dispatch-Stays h u st_h input w failed r eh eu holds on s f = absurd holds

  -- A call of the writing handler that was asked for keeps what holds.
  pub on_write-Stays :
      (read : Bool) (st_h : StreamCtx) (input : Input) (w : Wants) (failed : Bool)
      → st_h.headers_read ≡ read
      → IsSession on_being_idle short st_h w
      → w.writes ≡ true
      → IsShortInput litespeed_id on_being_idle short input
      → FailsWith litespeed_id on_being_idle short input failed
      → Stays on_being_idle short w failed
          (http_server_interop_on_write litespeed_id on_being_idle st_h input)
  unfolding http_server_interop_on_write
  on_write-Stays true st_h input w failed e holds on s f =
      dispatch-Stays st_h.interop_handler st_h.interop_u st_h input w failed e refl refl
        (subst (λ b. HoldsFrom on_being_idle short b st_h w) e holds) on s f
  on_write-Stays false st_h input w failed e holds on s f =
      absurd (cc (subst (λ b. HoldsFrom on_being_idle short b st_h w) e holds, on))
