-- ===== src/Interop/Write/Whole.antt =====
-- The writes of a whole answer from a buffer.
use equic.Prelude.{
  ℕ, ◌+◌, ◌-◌, ◌≤◌, ◌<◌, ◌≡◌, le_cases, sub_add, sub_none, take_add, take_full, ◌≢◌, inl, inr, refl,
  ap, sym, ◌∙◌, arith, Bool, true, false, Option, some, List, [], ◌∷◌, ◌++◌, Bytes, length, take,
  drop, length-drop,
}
use mathlib.Core.Path.{subst}
use equic.Lsquic.{send_headers, returns}
use equic.Lsquic.Peer.{Sent, nothing, nw_of, followed}
use equic.Routes.{Handler, error, index_html, md5sum, ver_head, gen_file}
use equic.Interop.Types.{Resp, Union, err, ihc, vhc, md5c, StreamCtx}
use equic.Interop.Write.{
  Input, with_resp, resp_of, headers2, sent_reply, reply, dispatch, http_server_interop_on_write,
}

resp_of-with_resp :
    (h : Handler) (u : Union) (resp resp' : Resp)
    → resp_of h u ≡ some resp
    → resp_of h (with_resp u resp') ≡ some resp'
resp_of-with_resp error (err r) resp resp' e = refl
resp_of-with_resp index_html (ihc r) resp resp' e = refl
resp_of-with_resp ver_head (vhc r b n) resp resp' e = refl
resp_of-with_resp md5sum (md5c r c d) resp resp' e = refl
resp_of-with_resp h u resp resp' e = absurd (cc e)

-- Each write takes some of the bytes that are left, and together they take all.
abbrev pub TakeAll : List Input → ℕ → Type 0
TakeAll [] left = left ≡ 0
TakeAll (input ∷ inputs) left =
    (input.nw ≡ some (nw_of input.nw))
    × (nw_of input.nw ≤ left)
    × TakeAll inputs (left - nw_of input.nw)

module _ (litespeed_id on_being_idle : Bytes) where
  -- The handler is called until the writing side is shut down; `none` if it does not return.
  pub run : StreamCtx → List Input → Sent → Option Sent
  unfolding http_server_interop_on_write followed
  run st_h [] s = some s
  run st_h (input ∷ inputs) s =
      followed input.headers_ok (nw_of input.nw)
        (http_server_interop_on_write litespeed_id on_being_idle st_h input)
        (λ st_h' s'. run st_h' inputs s') s

  dispatch-reply :
      (h : Handler) (st_h : StreamCtx) (resp : Resp) (input : Input)
      → resp_of h st_h.interop_u ≡ some resp
      → dispatch litespeed_id on_being_idle h st_h input
        ≡ reply litespeed_id on_being_idle st_h (some resp) input.nw
  unfolding dispatch
  dispatch-reply gen_file st_h resp input e = absurd (cc e)
  dispatch-reply h st_h resp input e = ap (λ r. reply litespeed_id on_being_idle st_h r input.nw) e

  -- One write of a part of what is left.
  on_write-part :
      (st_h : StreamCtx) (resp : Resp) (input : Input) (n : ℕ)
      → resp_of st_h.interop_handler st_h.interop_u ≡ some resp
      → st_h.headers_sent ≡ true
      → 0 < resp.sz
      → input.nw ≡ some n
      → http_server_interop_on_write litespeed_id on_being_idle st_h input
        ≡ sent_reply litespeed_id on_being_idle st_h resp (some n)
  unfolding http_server_interop_on_write reply
  on_write-part st_h resp input n e h p w =
      dispatch-reply st_h.interop_handler st_h resp input e ∙ ground (arith, h, p, w)

  on_write-headers :
      (st_h : StreamCtx) (resp : Resp) (input : Input)
      → resp_of st_h.interop_handler st_h.interop_u ≡ some resp
      → st_h.headers_sent ≡ false
      → 0 < resp.sz
      → http_server_interop_on_write litespeed_id on_being_idle st_h input
        ≡ returns
            (record st_h { headers_sent = true })
            (send_headers (headers2 litespeed_id on_being_idle st_h resp.sz) ∷ [])
  unfolding http_server_interop_on_write reply
  on_write-headers st_h resp input e h p =
      dispatch-reply st_h.interop_handler st_h resp input e ∙ ground (arith, h, p)

  -- The position after a write.
  abbrev at : StreamCtx → Resp → ℕ → StreamCtx
  at st_h resp n = record st_h {
    interop_u = with_resp st_h.interop_u (record resp { off = resp.off + n });
  }

  -- The bytes sent after a write.
  abbrev joined : Sent → Resp → ℕ → Bytes
  joined s resp n = s.bytes ++ take n (take (resp.sz - resp.off) (drop resp.off resp.buf))

  joined-take :
      (s : Sent) (resp : Resp) (n : ℕ)
      → s.bytes ≡ take resp.off resp.buf
      → resp.sz ≡ length resp.buf
      → joined s resp n ≡ take (resp.off + n) resp.buf
  joined-take s resp n b z =
      rw
        (
          b,
          take_full (resp.sz - resp.off) (drop resp.off resp.buf)
              (omega (arith, length-drop resp.off resp.buf)),
          take_add resp.off n resp.buf,
        )
        refl

  followed-part :
      (st_h : StreamCtx) (resp : Resp) (ok : Bool) (n : ℕ) (next : StreamCtx → Sent → Option Sent)
      (s : Sent)
      → s.closed ≡ false
      → resp.off + n ≢ resp.sz
      → followed ok n (sent_reply litespeed_id on_being_idle st_h resp (some n)) next s
        ≡ next (at st_h resp n) (record s { bytes = joined s resp n })
  unfolding followed sent_reply
  followed-part st_h resp ok n next s c ne = ground (arith, c, ne)

  followed-last :
      (st_h : StreamCtx) (resp : Resp) (ok : Bool) (n : ℕ) (next : StreamCtx → Sent → Option Sent)
      (s : Sent)
      → resp.off + n ≡ resp.sz
      → followed ok n (sent_reply litespeed_id on_being_idle st_h resp (some n)) next s
        ≡ some (record s { bytes = joined s resp n; closed = true })
  unfolding followed sent_reply
  followed-last st_h resp ok n next s e = ground (arith, e)

  run-part :
      (inputs : List Input) (st_h : StreamCtx) (resp : Resp) (s : Sent)
      → resp_of st_h.interop_handler st_h.interop_u ≡ some resp
      → st_h.headers_sent ≡ true
      → resp.off < resp.sz
      → resp.sz ≡ length resp.buf
      → s.bytes ≡ take resp.off resp.buf
      → s.closed ≡ false
      → TakeAll inputs (resp.sz - resp.off)
      → run st_h inputs s ≡ some (record s { bytes = resp.buf; closed = true })
  unfolding run
  run-part [] st_h resp s e h o z b c t = absurd (omega arith)
  run-part (input ∷ inputs) st_h resp s e h o z b c (w, l, t) =
      let n = nw_of input.nw in
      ap (λ outcome. followed input.headers_ok n outcome (λ st_h' s'. run st_h' inputs s') s)
        (on_write-part st_h resp input n e h (omega arith) w)
      ∙ elim (le_cases (resp.off + n) resp.sz (omega arith)) [
        | inl full ↦
            followed-last st_h resp input.headers_ok n (λ st_h' s'. run st_h' inputs s') s full
            ∙ ap (λ bytes. some (record s { bytes = bytes; closed = true }))
                (joined-take s resp n b z ∙ take_full (resp.off + n) resp.buf (omega arith))
        | inr more ↦
            followed-part st_h resp input.headers_ok n (λ st_h' s'. run st_h' inputs s') s c
              (omega arith)
            ∙ run-part inputs (at st_h resp n) (record resp { off = resp.off + n })
                (record s { bytes = joined s resp n })
                (resp_of-with_resp st_h.interop_handler st_h.interop_u resp
                  (record resp { off = resp.off + n }) e)
                h more z (joined-take s resp n b z) c
                (subst (λ k. TakeAll inputs k) (sub_add resp.sz resp.off n) t)
      ]

  -- For every stream with an answer in a buffer, of its size and not empty, that is to be sent from its
  -- beginning, and whose headers were not sent: if lsquic takes the headers and some bytes of each write, perhaps
  -- none, and all of them in the end, the peer gets one header block, with the status and the size of
  -- the answer, and the bytes of the answer, and the writing side is shut down.
  pub run-whole :
      (st_h : StreamCtx) (resp : Resp) (first : Input) (inputs : List Input)
      → resp_of st_h.interop_handler st_h.interop_u ≡ some resp
      → st_h.headers_sent ≡ false
      → first.headers_ok ≡ true
      → 0 < resp.sz
      → resp.sz ≡ length resp.buf
      → resp.off ≡ 0
      → TakeAll inputs resp.sz
      → run st_h (first ∷ inputs) nothing
        ≡ some (record {
          heads = headers2 litespeed_id on_being_idle st_h resp.sz ∷ [];
          bytes = resp.buf;
          closed = true;
        })
  unfolding run followed
  run-whole st_h resp first inputs e h k p z o t =
      ap
        (λ ok.
          followed ok (nw_of first.nw)
            (http_server_interop_on_write litespeed_id on_being_idle st_h first)
            (λ st_h' s'. run st_h' inputs s') nothing)
        k
      ∙ ap
          (λ outcome.
            followed true (nw_of first.nw) outcome (λ st_h' s'. run st_h' inputs s') nothing)
          (on_write-headers st_h resp first e h p)
      ∙ run-part inputs (record st_h { headers_sent = true }) resp
          (record nothing { heads = headers2 litespeed_id on_being_idle st_h resp.sz ∷ [] }) e refl
          (omega arith) z (ap (λ k. take k resp.buf) (sym o)) refl
          (subst (λ k. TakeAll inputs k) (sub_none resp.sz resp.off o) t)
