-- ===== src/Interop/Write/Generated/Headers.antt =====
-- The header block of a generated file, behind the promises, and then the file.

use equic.Prelude.{
  ℕ, ◌<◌, ◌^◌, ◌≡◌, refl, ap, ◌∙◌, arith, Bool, true, false, Option, none, some, List, [], ◌∷◌,
  ◌++◌, Bytes, codes, length, if◌then◌else◌,
}
use equic.Lsquic.{Call, send_headers, push_stream, stream_close, returns}
use equic.Lsquic.Peer.{Sent, nothing, sent_by, nw_of, followed}
use equic.GenFile.{GenFile}
use equic.GenFile.Cyclic.{cyclic}
use equic.Request.{Req}
use equic.Routes.{gen_file}
use equic.Interop.Types.{gfc, StreamCtx}
use equic.Interop.Write.{
  Input, headers2, push_all, idle_headers, idle_promised, idle_start, idle_body, idle_on_write,
  dispatch, http_server_interop_on_write,
}
use equic.Interop.Write.Generated.{TakeAll, took, run_generated, run-generating}

module _ (litespeed_id on_being_idle : Bytes) (short : length on_being_idle < 2 ^ 32) where
  -- Promises leave what the peer gets alone.
  sent_by-push_all :
      (ok : Bool) (n : ℕ) (req_ok : Bytes → Bool) (authority : Bytes) (paths : List Bytes)
      (calls : List Call) (s : Sent)
      → sent_by ok n (push_all litespeed_id on_being_idle req_ok authority paths ++ calls) s
        ≡ sent_by ok n calls s
  unfolding push_all
  sent_by-push_all ok n req_ok authority [] calls s = refl
  sent_by-push_all ok n req_ok authority (path ∷ paths) calls s =
      sent_by_one (req_ok path) ∙ sent_by-push_all ok n req_ok authority paths calls s
    where
      sent_by_one :
          (made : Bool)
          → sent_by ok n
              (((if made
                    then push_stream (
                        (codes ":method", codes "GET")
                        ∷ (codes ":path", path)
                        ∷ (codes ":authority", authority)
                        ∷ (codes ":scheme", codes "https")
                        ∷ [])
                      ∷ []
                    else [])
                  ++ push_all litespeed_id on_being_idle req_ok authority paths)
                ++ calls)
              s
            ≡ sent_by ok n (push_all litespeed_id on_being_idle req_ok authority paths ++ calls) s
      sent_by_one true = refl
      sent_by_one false = refl

  -- The header block, behind any promises.
  followed-headers :
      (n : ℕ) (st_h : StreamCtx) (calls : List Call) (headers : List (Bytes × Bytes))
      (next : StreamCtx → Sent → Option Sent)
      → ((more : List Call) (s : Sent) → sent_by true n (calls ++ more) s ≡ sent_by true n more s)
      → followed true n (returns st_h (calls ++ (send_headers headers ∷ []))) next nothing
        ≡ next st_h (record nothing { heads = headers ∷ [] })
  unfolding followed
  followed-headers n st_h calls headers next quiet =
      ap (λ (s' : Sent). let rest = next st_h s' in if s'.closed then some s' else rest)
        (quiet (send_headers headers ∷ []) nothing)

  module _ (st_h : StreamCtx) (first : Input) (inputs : List Input)
      (generates : st_h.interop_handler ≡ gen_file) (ok : first.headers_ok ≡ true)
      (long : 0 < length on_being_idle) where
    -- What the peer gets of a generated file of this size.
    abbrev Gets : Option Sent → ℕ → Type 0
    Gets outcome remain =
        outcome
        ≡ some (record {
          heads = headers2 litespeed_id on_being_idle st_h remain ∷ [];
          bytes = cyclic on_being_idle 0 remain;
          closed = true;
        })

    abbrev next : StreamCtx → Sent → Option Sent
    next st_h' s' = run_generated litespeed_id on_being_idle short st_h' inputs s'

    idle_headers-generated :
        (g : GenFile) (calls : List Call)
        → g.idle_off ≡ 0
        → TakeAll litespeed_id on_being_idle short inputs g.remain
        → ((more : List Call) (s : Sent)
            → sent_by true (nw_of (took litespeed_id on_being_idle short first)) (calls ++ more) s
              ≡ sent_by true (nw_of (took litespeed_id on_being_idle short first)) more s)
        → Gets
            (followed first.headers_ok
              (nw_of (took litespeed_id on_being_idle short first))
              (idle_headers litespeed_id on_being_idle st_h g first.headers_ok calls)
              next
              nothing)
            g.remain
    unfolding idle_headers
    idle_headers-generated g calls o t quiet =
        let headers = headers2 litespeed_id on_being_idle st_h g.remain in
        let s1 = record nothing { heads = headers ∷ [] } in
        ap
          (λ b.
            followed b (nw_of (took litespeed_id on_being_idle short first))
              (returns (record st_h { headers_sent = b; interop_u = gfc g })
                (calls ++ (send_headers headers ∷ (if b then [] else stream_close ∷ []))))
              next nothing)
          ok
        ∙ followed-headers (nw_of (took litespeed_id on_being_idle short first))
            (record st_h { headers_sent = true; interop_u = gfc g }) calls headers next quiet
        ∙ ap
            (λ h.
              run_generated litespeed_id on_being_idle short
                (record st_h { headers_sent = true; interop_handler = h; interop_u = gfc g }) inputs
                s1)
            generates
        ∙ run-generating litespeed_id on_being_idle short inputs st_h g s1
            (cyclic on_being_idle 0 g.remain) (omega (arith, o, long))
            (ap (λ off. cyclic on_being_idle off g.remain) o) refl t

    idle_promised-generated :
        (g : GenFile) (authority : Option Bytes)
        → g.idle_off ≡ 0
        → TakeAll litespeed_id on_being_idle short inputs g.remain
        → Gets
            (followed first.headers_ok
              (nw_of (took litespeed_id on_being_idle short first))
              (idle_promised litespeed_id on_being_idle st_h g first authority)
              next
              nothing)
            g.remain
    unfolding idle_promised
    idle_promised-generated g none o t = idle_headers-generated g [] o t (λ more s. refl)
    idle_promised-generated g (some authority) o t =
        idle_headers-generated (record g { push_paths = [] })
          (push_all litespeed_id on_being_idle first.req_ok authority g.push_paths) o t
          (sent_by-push_all true (nw_of (took litespeed_id on_being_idle short first)) first.req_ok
            authority g.push_paths)

  on_write-start :
      (st_h : StreamCtx) (g : GenFile) (req : Req) (first : Input)
      → st_h.interop_handler ≡ gen_file
      → st_h.interop_u ≡ gfc g
      → st_h.headers_sent ≡ false
      → st_h.req ≡ some req
      → http_server_interop_on_write litespeed_id on_being_idle st_h first
        ≡ idle_promised litespeed_id on_being_idle st_h g first req.authority_str
  unfolding http_server_interop_on_write dispatch idle_on_write idle_start
  on_write-start st_h g req first e u h r =
      ap (λ handler. dispatch litespeed_id on_being_idle handler st_h first) e
      ∙ ap (λ v. idle_on_write litespeed_id on_being_idle st_h v first) u
      ∙ ap
          (λ sent.
            if sent
            then idle_body litespeed_id on_being_idle st_h g first
            else idle_start litespeed_id on_being_idle st_h g first st_h.req)
          h
      ∙ ap (idle_start litespeed_id on_being_idle st_h g first) r

  -- For every stream that is to generate a file from the beginning of the text, which is not
  -- empty, for a request with any paths to push, and whose headers were not sent, with preadv on
  -- or off: if lsquic takes the headers and what each write gives it, up to the last bytes, the
  -- peer gets one header block with the status and the size, and as many bytes as the size says,
  -- those of the text repeated without end, and the writing side is shut down.
  pub run-generated :
      (st_h : StreamCtx) (g : GenFile) (req : Req) (first : Input) (inputs : List Input)
      → st_h.interop_handler ≡ gen_file
      → st_h.interop_u ≡ gfc g
      → st_h.headers_sent ≡ false
      → st_h.req ≡ some req
      → 0 < length on_being_idle
      → g.idle_off ≡ 0
      → first.headers_ok ≡ true
      → TakeAll litespeed_id on_being_idle short inputs g.remain
      → run_generated litespeed_id on_being_idle short st_h (first ∷ inputs) nothing
        ≡ some (record {
          heads = headers2 litespeed_id on_being_idle st_h g.remain ∷ [];
          bytes = cyclic on_being_idle 0 g.remain;
          closed = true;
        })
  unfolding run_generated
  run-generated st_h g req first inputs e u h r long o ok t =
      ap
        (λ outcome.
          followed first.headers_ok (nw_of (took litespeed_id on_being_idle short first)) outcome
            (λ st_h' s'. run_generated litespeed_id on_being_idle short st_h' inputs s') nothing)
        (on_write-start st_h g req first e u h r)
      ∙ idle_promised-generated st_h first inputs e ok long g req.authority_str o t
