-- ===== src/Interop/Write/Generated.antt =====
-- The writes of a whole generated file.
pub mod Headers
use mathlib.Core.List.{append_assoc}
use mathlib.Core.Path.{subst}
use equic.Prelude.{
  ℕ, ◌+◌, ◌-◌, ◌≤◌, ◌<◌, ◌^◌, ◌≡◌, ◌⊎◌, inl, inr, refl, ap, sym, ◌∙◌, arith, min, Bool, true, false,
  Option, none, some, List, [], ◌∷◌, ◌++◌, Bytes, codes, length, take_full, le_or_gt, leb,
  if◌then◌else◌,
}
use equic.Lsquic.{Call, shutdown, write, send_headers, push_stream, stream_close, returns}
use equic.Lsquic.Peer.{Sent, nothing, sent_by, nw_of, followed}
use equic.GenFile.{GenFile}
use equic.GenFile.Cyclic.{cyclic, cyclic-add, after-lt, length-cyclic}
use equic.GenFile.Read.{IsGen, AreShort, sum, rest_of, behind}
use equic.Request.{Req}
use equic.Routes.{gen_file}
use equic.Interop.Types.{gfc, StreamCtx}
use equic.Interop.Write.{
  Input, headers2, push_all, idle_headers, idle_promised, idle_start, idle_body, idle_on_write,
  dispatch, http_server_interop_on_write,
}
use equic.Interop.Write.Idle.{generating, buffers_of, taken_of, TakesGiven, on_write-generating}

leb-true : (a b : ℕ) → a ≤ b → leb a b ≡ true
leb-true a b h = ground arith

leb-false : (a b : ℕ) → b < a → leb a b ≡ false
leb-false a b h = ground arith

least : (total remain : ℕ) → remain ≤ total → min total remain ≡ remain
least total remain h = omega arith

sum_back : (n remain : ℕ) → n ≤ remain → n + (remain - n) ≡ remain
sum_back n remain h = omega arith

less : (total remain : ℕ) → total < remain → remain - total ≡ remain - min total remain
less total remain h = omega arith

module _ (litespeed_id on_being_idle : Bytes) (short : length on_being_idle < 2 ^ 32) where
  -- What the buffers of a write hold, and what lsquic took of them.
  abbrev pub given : Input → ℕ
  given input =
      sum on_being_idle short (buffers_of litespeed_id on_being_idle short input.s_pwritev input)

  abbrev pub took : Input → Option ℕ
  took input = taken_of litespeed_id on_being_idle short input.s_pwritev input

  -- Each write takes what its buffers of fewer than 2 ^ 32 bytes were given, with preadv something,
  -- and a write takes the last bytes.
  abbrev pub TakeAll : List Input → ℕ → Type 0
  TakeAll [] left = ⊥
  TakeAll (input ∷ inputs) left =
      TakesGiven litespeed_id on_being_idle short input.s_pwritev input left
      × ((left ≤ given input) ⊎ TakeAll inputs (left - given input))

  -- The handler is called until the writing side is shut down; `none` if it does not return.
  pub run_generated : StreamCtx → List Input → Sent → Option Sent
  unfolding http_server_interop_on_write followed
  run_generated st_h [] s = some s
  run_generated st_h (input ∷ inputs) s =
      followed input.headers_ok (nw_of (took input))
        (http_server_interop_on_write litespeed_id on_being_idle st_h input)
        (λ st_h' s'. run_generated st_h' inputs s') s

  followed-write :
      (st_h : StreamCtx) (ok : Bool) (n : ℕ) (bytes : Bytes) (last : Bool)
      (next : StreamCtx → Sent → Option Sent) (s : Sent)
      → length bytes ≡ n
      → s.closed ≡ false
      → followed ok n (returns st_h (write bytes ∷ (if last then shutdown 1 ∷ [] else []))) next s
        ≡ (if last
            then some (record s { bytes = s.bytes ++ bytes; closed = true })
            else next st_h (record s { bytes = s.bytes ++ bytes }))
  unfolding followed
  followed-write st_h ok n bytes true next s e c =
      ap (λ sent. some (record s { bytes = s.bytes ++ sent; closed = true }))
        (take_full n bytes (omega (arith, e)))
  followed-write st_h ok n bytes false next s e c =
      rw (take_full n bytes (omega (arith, e))) (ground (arith, c))

  pub run-generating :
      (inputs : List Input) (st_h : StreamCtx) (g : GenFile) (s : Sent) (whole : Bytes)
      → IsGen on_being_idle short g
      → s.bytes ++ cyclic on_being_idle g.idle_off g.remain ≡ whole
      → s.closed ≡ false
      → TakeAll inputs g.remain
      → run_generated (generating st_h g) inputs s
        ≡ some (record s { bytes = whole; closed = true })
  unfolding run_generated
  run-generating [] st_h g s whole h b c t = absurd t
  run-generating (input ∷ inputs) st_h g s whole h b c (takes, t) =
      let total = given input in
      let n = min total g.remain in
      let g' = behind on_being_idle short g n in
      let bytes = rest_of on_being_idle short g n in
      ap
        (λ outcome.
          followed input.headers_ok (nw_of (took input)) outcome
            (λ st_h' s'. run_generated st_h' inputs s') s)
        (on_write-generating litespeed_id on_being_idle short st_h g input h takes)
      ∙ ap
          (λ nw.
            followed input.headers_ok (nw_of nw)
              (returns (generating st_h g')
                (write bytes ∷ (if leb g.remain total then shutdown 1 ∷ [] else [])))
              (λ st_h' s'. run_generated st_h' inputs s') s)
          takes.1
      ∙ followed-write (generating st_h g') input.headers_ok n bytes (leb g.remain total)
          (λ st_h' s'. run_generated st_h' inputs s') s (length-cyclic on_being_idle g.idle_off n) c
      ∙ elim (le_or_gt g.remain total) [
        | inl all ↦
            ap
              (λ last.
                if last
                then some (record s { bytes = s.bytes ++ bytes; closed = true })
                else run_generated (generating st_h g') inputs
                    (record s { bytes = s.bytes ++ bytes }))
              (leb-true g.remain total all)
            ∙ ap
                (λ k.
                  some (record s {
                    bytes = s.bytes ++ rest_of on_being_idle short g k;
                    closed = true;
                  }))
                (least total g.remain all)
            ∙ ap (λ sent. some (record s { bytes = sent; closed = true })) b
        | inr part ↦
            ap
              (λ last.
                if last
                then some (record s { bytes = s.bytes ++ bytes; closed = true })
                else run_generated (generating st_h g') inputs
                    (record s { bytes = s.bytes ++ bytes }))
              (leb-false g.remain total part)
            ∙ run-generating inputs st_h g' (record s { bytes = s.bytes ++ bytes }) whole
                (after-lt on_being_idle g.idle_off n h)
                (append_assoc s.bytes bytes (cyclic on_being_idle g'.idle_off g'.remain)
                  ∙ ap (λ more. s.bytes ++ more)
                      (sym (cyclic-add on_being_idle g.idle_off n (g.remain - n)))
                  ∙ ap (λ k. s.bytes ++ cyclic on_being_idle g.idle_off k)
                      (sum_back n g.remain (omega arith))
                  ∙ b)
                c
                (elim t [
                  | inl all ↦ absurd (omega (arith, part, all))
                  | inr more ↦ subst (λ k. TakeAll inputs k) (less total g.remain part) more
                ])
      ]
