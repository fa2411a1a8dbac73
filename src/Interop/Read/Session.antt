-- ===== src/Interop/Read/Session.antt =====
-- `http_server_interop_on_read` keeps what holds of a stream.
use equic.Prelude.{◌<◌, ◌^◌, ◌≡◌, refl, Bool, true, false, not, Option, List, Bytes, length}
use mathlib.Core.Path.{subst}
use equic.Routes.{ReqMap, Match}
use equic.Routes.First.{AllMaps}
use equic.Interop.Types.{StreamCtx, Input}
use equic.Interop.Start.Session.{IsFilled, HasMemory, IsAnswered, start-Stays}
use equic.Interop.Rest.Session.{FailsWith, read_body-Stays}
use equic.Interop.Read.{http_server_interop_on_read}
use equic.Interop.Session.{Wants}
use equic.Interop.Session.Invariant.{HoldsFrom, IsSession, Stays, if-Stays}

not_read : (b : Bool) → not b ≡ true → b ≡ false
not_read true e = absurd (cc e)
not_read false e = refl

was_read : (b : Bool) → not b ≡ false → b ≡ true
was_read true e = refl
was_read false e = absurd (cc e)

module _ (index_page : Bytes) (regexec : Bytes → Bytes → Option (List Match))
    (on_being_idle : Bytes) (short : length on_being_idle < 2 ^ 32)
    (long : 0 < length on_being_idle) (paged : 0 < length index_page) (md5 : Bytes → Bytes)
    (maps : List ReqMap) (answered : AllMaps regexec (IsAnswered index_page regexec) maps) where
  -- A call of the reading handler that was asked for keeps what holds.
  pub on_read-Stays :
      (st_h : StreamCtx) (input : Input) (w : Wants) (failed : Bool)
      → IsSession on_being_idle short st_h w
      → IsFilled input.hset
      → HasMemory input.memory
      → w.reads ≡ true
      → FailsWith on_being_idle short input failed
      → Stays on_being_idle short w failed
          (http_server_interop_on_read index_page regexec md5 maps st_h input)
  unfolding http_server_interop_on_read
  on_read-Stays st_h input w failed holds filled room on f =
      if-Stays on_being_idle short (not st_h.headers_read) w failed _ _
        (λ e.
          start-Stays index_page regexec on_being_idle short long paged maps input.memory
            (record st_h { headers_read = true; req = input.hset }) input.hset w failed
            (
              refl,
              refl,
              subst (λ b. HoldsFrom on_being_idle short b st_h w) (not_read st_h.headers_read e)
                  holds,
            )
            filled room answered)
        (λ e.
          let r = was_read st_h.headers_read e in
          read_body-Stays on_being_idle short md5 st_h.interop_handler st_h.interop_u st_h input w
            failed (r, refl) refl (subst (λ b. HoldsFrom on_being_idle short b st_h w) r holds) on
            f)
