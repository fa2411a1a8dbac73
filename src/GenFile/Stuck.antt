-- ===== src/GenFile/Stuck.antt =====
-- A buffer whose size is a multiple of 2 ^ 32: the cast of `end - p` to `unsigned` is 0.
use equic.Prelude.{
  ℕ, zero, suc, ◌+◌, ◌-◌, ◌*◌, ◌%◌, ◌^◌, ◌<◌, ◌≡◌, refl, arith, ◌&&◌, true, none, Bytes, length,
  ltb,
}
use equic.GenFile.{GenFile, to_write, advanced, idle_loop}

module _ (text : Bytes) (short : length text < 2 ^ 32) where
  unmoved :
      (gfc : GenFile) (k : ℕ)
      → gfc.idle_off < length text
      → (to_write text (k * 2 ^ 32) gfc ≡ 0) × (advanced text gfc 0 ≡ gfc)
  unmoved gfc k h = (ground (arith, wrapped k), ground (arith, small gfc.idle_off))
    where
      wrapped : (k : ℕ) → (k * 2 ^ 32) % 2 ^ 32 ≡ 0
      wrapped k = omega arith

      small : (n : ℕ) → n < 2 ^ 32 → (n + 0) % 2 ^ 32 ≡ n
      small n h = omega arith

  -- From a position inside the text, with bytes remaining, a buffer whose size is a multiple of
  -- 2 ^ 32 and not 0 makes no round of the loop of `idle_read` write a byte: with no fuel does the
  -- loop end.
  pub idle_loop-stuck :
      (fuel k : ℕ) (gfc : GenFile)
      → gfc.idle_off < length text
      → 0 < gfc.remain
      → 0 < k
      → idle_loop text fuel (k * 2 ^ 32) gfc ≡ none
  unfolding idle_loop
  idle_loop-stuck zero k gfc h more pos = refl
  idle_loop-stuck (suc fuel) k gfc h more pos =
      let (none_written, same) = unmoved gfc k h in
      let all_left : k * 2 ^ 32 - 0 ≡ k * 2 ^ 32 = omega arith in
      let again : (ltb 0 (k * 2 ^ 32) && ltb 0 gfc.remain) ≡ true = ground arith in
      rw (again, none_written, same, all_left, idle_loop-stuck fuel k gfc h more pos) refl
