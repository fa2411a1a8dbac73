-- ===== src/GenFile/Read.antt =====
-- What `idle_read` and `my_interop_preadv` write, and that their loops end.
use equic.Prelude.{
  ℕ, zero, suc, ◌+◌, ◌-◌, ◌%◌, ◌^◌, ◌≤◌, ◌<◌, ◌≡◌, ap, arith, min, ◌&&◌, Option, some, List, [],
  ◌∷◌, ◌++◌, Bytes, length, Bool-cases, inl, inr, ltb,
}
use equic.GenFile.{GenFile, to_write, advanced, idle_loop, idle_read, my_interop_preadv}
use equic.GenFile.Cyclic.{cyclic, after, cyclic-add, after-add, after_lem, cyclic_lem, after-lt}

module _ (text : Bytes) (short : length text < 2 ^ 32) where
  -- The position is inside the text.
  abbrev pub IsGen : GenFile → Type 0
  IsGen gfc = gfc.idle_off < length text

  -- The bytes to come, and the state behind `n` of them.
  abbrev pub rest_of : GenFile → ℕ → Bytes
  rest_of gfc n = cyclic text gfc.idle_off n

  abbrev pub behind : GenFile → ℕ → GenFile
  behind gfc n = record gfc { idle_off = after text gfc.idle_off n; remain = gfc.remain - n }

  to_write_bounds :
      (left : ℕ) (gfc : GenFile)
      → IsGen gfc
      → left < 2 ^ 32
      → 0 < left
      → 0 < gfc.remain
      → (0 < to_write text left gfc)
        × (to_write text left gfc ≤ left)
        × (to_write text left gfc ≤ gfc.remain)
        × (gfc.idle_off + to_write text left gfc ≤ length text)
  to_write_bounds left gfc h small some_left some_remain = ground (arith, mod_small left small)
    where
      mod_small : (n : ℕ) → n < 2 ^ 32 → n % 2 ^ 32 ≡ n
      mod_small n small = omega arith

  advanced-behind :
      (gfc : GenFile) (n : ℕ)
      → IsGen gfc
      → gfc.idle_off + n ≤ length text
      → advanced text gfc n ≡ behind gfc n
  advanced-behind gfc n h fits =
      ground (arith, after_lem text gfc.idle_off n h fits, mod_small (gfc.idle_off + n))
    where
      mod_small : (n : ℕ) → n < 2 ^ 32 → n % 2 ^ 32 ≡ n
      mod_small n small = omega arith

  split :
      (gfc : GenFile) (n k m : ℕ)
      → m ≡ n + k
      → ◌≡◌ {A = Option (Bytes × GenFile)}
          (some (rest_of gfc n ++ rest_of (behind gfc n) k, behind (behind gfc n) k))
          (some (rest_of gfc m, behind gfc m))
  split gfc n k m e = ground (
    arith,
    cyclic-add text gfc.idle_off n k,
    after-add text gfc.idle_off n k,
    ap (cyclic text gfc.idle_off) e,
    ap (after text gfc.idle_off) e,
  )

  idle_loop_lem :
      (fuel left : ℕ) (gfc : GenFile)
      → IsGen gfc
      → left < fuel
      → left < 2 ^ 32
      → idle_loop text fuel left gfc
        ≡ some (rest_of gfc (min left gfc.remain), behind gfc (min left gfc.remain))
  unfolding idle_loop cyclic after
  idle_loop_lem zero left gfc h enough small = absurd (omega arith)
  idle_loop_lem (suc fuel) left gfc h enough small =
      elim (Bool-cases (ltb 0 left && ltb 0 gfc.remain)) [
        | inl more ↦
            let n = to_write text left gfc in
            let (pos, le_left, le_remain, fits) =
              to_write_bounds left gfc h small (ground arith) (ground arith) in
            let ih =
              idle_loop_lem fuel (left - n) (behind gfc n) (after-lt text gfc.idle_off n h)
                (omega arith) (omega arith) in
            rw (more, advanced-behind gfc n h fits, ih, ← cyclic_lem text gfc.idle_off n fits)
              (split gfc n (min (left - n) (gfc.remain - n)) (min left gfc.remain) (omega arith))
        | inr over ↦
            let none_left : min left gfc.remain ≡ 0 = ground arith in
            rw (over, none_left) (ground arith)
      ]

  -- From a position inside the text, and for a buffer of fewer than 2 ^ 32 bytes, the loop of
  -- `idle_read` ends; it writes as many bytes as fit the buffer and remain, namely the next ones of
  -- the text repeated without end, and leaves the state that many bytes on.
  pub idle_read_lem :
      (gfc : GenFile) (count : ℕ)
      → IsGen gfc
      → count < 2 ^ 32
      → idle_read text gfc count
        ≡ some (rest_of gfc (min count gfc.remain), behind gfc (min count gfc.remain))
  idle_read_lem gfc count h small = idle_loop_lem (suc count) count gfc h (omega arith) small

  abbrev pub AreShort : List ℕ → Type 0
  AreShort [] = Unit
  AreShort (len ∷ lens) = (len < 2 ^ 32) × AreShort lens

  abbrev pub sum : List ℕ → ℕ
  sum [] = 0
  sum (len ∷ lens) = len + sum lens

  -- The same for `my_interop_preadv`, for buffers of fewer than 2 ^ 32 bytes each: it fills them as
  -- one buffer of their joint size.
  pub my_interop_preadv_lem :
      (iov : List ℕ) (gfc : GenFile)
      → IsGen gfc
      → AreShort iov
      → my_interop_preadv text gfc iov
        ≡ some (rest_of gfc (min (sum iov) gfc.remain), behind gfc (min (sum iov) gfc.remain))
  unfolding my_interop_preadv cyclic after
  my_interop_preadv_lem [] gfc h ok =
      let none_left : min 0 gfc.remain ≡ 0 = omega arith in rw none_left (ground arith)
  my_interop_preadv_lem (len ∷ iov) gfc h ok =
      let n = min len gfc.remain in
      let ih = my_interop_preadv_lem iov (behind gfc n) (after-lt text gfc.idle_off n h) ok.1 in
      rw (idle_read_lem gfc len h ok.0, ih)
        (split gfc n (min (sum iov) (gfc.remain - n)) (min (len + sum iov) gfc.remain)
          (omega arith))
