-- ===== src/Interop/Write/Idle.antt =====
-- A write from a generated file.
use equic.Prelude.{
  ℕ, zero, suc, refl, Bool, Option, ◌-◌, ◌<◌, ◌^◌, ◌≡◌, ◌∙◌, ap, arith, min, true, false, some,
  List, [], ◌∷◌, Bytes, length, leb, ◌==◌, if◌then◌else◌,
}
use equic.Lsquic.{shutdown, write, returns}
use equic.GenFile.{GenFile}
use equic.GenFile.Read.{IsGen, AreShort, sum, rest_of, behind, my_interop_preadv_lem}
use equic.Routes.{gen_file}
use equic.Interop.Types.{gfc, StreamCtx}
use equic.Interop.Write.{
  Input, with_reader, idle_written, idle_end, idle_pwritev, idle_body, idle_on_write, dispatch,
  http_server_interop_on_write,
}

abbrev pub generating : StreamCtx → GenFile → StreamCtx
generating st_h g = record st_h {
  headers_sent = true;
  interop_handler = gen_file;
  interop_u = gfc g;
}

module _ (litespeed_id on_being_idle : Bytes) (short : length on_being_idle < 2 ^ 32) where
  -- What a call writes when lsquic asks for buffers of these sizes.
  abbrev pub amount : GenFile → List ℕ → ℕ
  amount g counts = min (sum on_being_idle short counts) g.remain

  with_reader_lem :
      (st_h : StreamCtx) (g : GenFile) (input : Input) (nw : ℕ)
      → IsGen on_being_idle short g
      → AreShort on_being_idle short input.counts
      → input.writef_nw ≡ some nw
      → with_reader litespeed_id on_being_idle st_h g input []
        ≡ returns
            (record st_h { interop_u = gfc (behind on_being_idle short g (amount g input.counts)) })
            (write (rest_of on_being_idle short g (amount g input.counts))
              ∷ (if g.remain - amount g input.counts == 0 then shutdown 1 ∷ [] else []))
  unfolding with_reader idle_written idle_end
  with_reader_lem st_h g input nw h a w =
      ap (idle_written litespeed_id on_being_idle st_h input [])
        (my_interop_preadv_lem on_being_idle short input.counts g h a)
      ∙ ap
          (λ result.
            idle_end litespeed_id on_being_idle st_h
              (behind on_being_idle short g (amount g input.counts)) result
              (write (rest_of on_being_idle short g (amount g input.counts)) ∷ []))
          w

  last_amount : (total remain : ℕ) → (remain - min total remain == 0) ≡ leb remain total
  last_amount total remain = ground arith

  one_more : (n : ℕ) → 0 < n → (k : ℕ) × (n ≡ suc k)
  one_more zero h = absurd (omega (arith, h))
  one_more (suc n) h = (n, refl)

  -- With preadv, a write that takes something is the last call.
  idle_pwritev_lem :
      (st_h : StreamCtx) (g : GenFile) (input : Input) (k : ℕ)
      → IsGen on_being_idle short g
      → AreShort on_being_idle short input.iov
      → input.pwritev_nw ≡ some (suc k)
      → idle_pwritev litespeed_id on_being_idle st_h g input
        ≡ returns
            (record st_h { interop_u = gfc (behind on_being_idle short g (amount g input.iov)) })
            (write (rest_of on_being_idle short g (amount g input.iov))
              ∷ (if g.remain - amount g input.iov == 0 then shutdown 1 ∷ [] else []))
  unfolding idle_pwritev idle_end
  idle_pwritev_lem st_h g input k h a w =
      rw (idle_pwritev, my_interop_preadv_lem on_being_idle short input.iov g h a, w) refl

  -- The buffers of a write, and what lsquic took of them, with preadv on or off.
  abbrev pub buffers_of : Bool → Input → List ℕ
  buffers_of on input = if on then input.iov else input.counts

  abbrev pub taken_of : Bool → Input → Option ℕ
  taken_of on input = if on then input.pwritev_nw else input.writef_nw

  -- Lsquic takes what its buffers of fewer than 2 ^ 32 bytes were given; with preadv, that is
  -- something.
  abbrev pub TakesGiven : Bool → Input → ℕ → Type 0
  TakesGiven on input left =
      AreShort on_being_idle short (buffers_of on input)
      × (taken_of on input ≡ some (min (sum on_being_idle short (buffers_of on input)) left))
      × (on ≡ true → 0 < min (sum on_being_idle short (buffers_of on input)) left)

  idle_body_lem :
      (on : Bool) (st_h : StreamCtx) (g : GenFile) (input : Input)
      → input.s_pwritev ≡ on
      → IsGen on_being_idle short g
      → TakesGiven on input g.remain
      → idle_body litespeed_id on_being_idle st_h g input
        ≡ returns
            (record st_h {
              interop_u = gfc (behind on_being_idle short g (amount g (buffers_of on input)));
            })
            (write (rest_of on_being_idle short g (amount g (buffers_of on input)))
              ∷ (if g.remain - amount g (buffers_of on input) == 0 then shutdown 1 ∷ [] else []))
  unfolding idle_body
  idle_body_lem true st_h g input e h (a, w, some_given) =
      let (k, more) = one_more (amount g input.iov) (some_given refl) in
      ap
        (λ on.
          if on
          then idle_pwritev litespeed_id on_being_idle st_h g input
          else with_reader litespeed_id on_being_idle st_h g input [])
        e
      ∙ idle_pwritev_lem st_h g input k h a (w ∙ ap some more)
  idle_body_lem false st_h g input e h (a, w, some_given) =
      ap
        (λ on.
          if on
          then idle_pwritev litespeed_id on_being_idle st_h g input
          else with_reader litespeed_id on_being_idle st_h g input [])
        e
      ∙ with_reader_lem st_h g input (amount g input.counts) h a w

  -- On a stream whose headers were sent and that generates a file, from a position inside the text: if
  -- lsquic takes what its buffers of fewer than 2 ^ 32 bytes each were given, with preadv something,
  -- the handler returns; it writes as many bytes as fit the buffers and remain, namely the next ones
  -- of the text repeated without end, and shuts down the writing side exactly if none remain.
  pub on_write-generating :
      (st_h : StreamCtx) (g : GenFile) (input : Input)
      → IsGen on_being_idle short g
      → TakesGiven input.s_pwritev input g.remain
      → let buffers = buffers_of input.s_pwritev input in
        http_server_interop_on_write litespeed_id on_being_idle (generating st_h g) input
        ≡ returns (generating st_h (behind on_being_idle short g (amount g buffers))) (
            write (rest_of on_being_idle short g (amount g buffers))
            ∷ (if leb g.remain (sum on_being_idle short buffers) then shutdown 1 ∷ [] else []))
  unfolding http_server_interop_on_write dispatch idle_on_write
  on_write-generating st_h g input h t =
      let buffers = buffers_of input.s_pwritev input in
      idle_body_lem input.s_pwritev (generating st_h g) g input refl h t
      ∙ ap
          (λ last. returns (generating st_h (behind on_being_idle short g (amount g buffers))) (
            write (rest_of on_being_idle short g (amount g buffers))
            ∷ (if last then shutdown 1 ∷ [] else [])))
          (last_amount (sum on_being_idle short buffers) g.remain)
