-- ===== src/GenFile/Cyclic.antt =====
-- The text repeated without end, and its pieces.

use equic.Prelude.{
  ℕ, zero, suc, ◌+◌, ◌≤◌, ◌<◌, ◌≡◌, refl, ap, arith, [], ◌∷◌, ◌++◌, Bytes, length, take, drop,
  get_or, ◌==◌, if◌then◌else◌,
}

take-drop-cons :
    (xs : Bytes) (i n : ℕ)
    → i < length xs
    → take (suc n) (drop i xs) ≡ get_or xs i 0 ∷ take n (drop (i + 1) xs)
take-drop-cons [] i n h = absurd (omega arith)
take-drop-cons (x ∷ xs) zero n h = refl
take-drop-cons (x ∷ xs) (suc i) n h =
    let e : suc i + 1 ≡ suc (i + 1) = omega arith in rw e (take-drop-cons xs i n (omega arith))

module _ (text : Bytes) where
  -- The byte behind a position, at the start again behind the last.
  abbrev pub next : ℕ → ℕ
  next off = if off + 1 == length text then 0 else off + 1

  -- `n` bytes from a position on.
  unfoldable pub cyclic : ℕ → ℕ → Bytes
  cyclic off zero = []
  cyclic off (suc n) = get_or text off 0 ∷ cyclic (next off) n

  -- The position `n` bytes on.
  unfoldable pub after : ℕ → ℕ → ℕ
  after off zero = off
  after off (suc n) = after (next off) n

  pub cyclic-add : (off m n : ℕ) → cyclic off (m + n) ≡ cyclic off m ++ cyclic (after off m) n
  unfolding cyclic after
  cyclic-add off zero n = let e : 0 + n ≡ n = omega arith in rw e
  cyclic-add off (suc m) n =
      let e : suc m + n ≡ suc (m + n) = omega arith in
      rw e (ap (λ t. get_or text off 0 ∷ t) (cyclic-add (next off) m n))

  pub after-add : (off m n : ℕ) → after off (m + n) ≡ after (after off m) n
  unfolding after
  after-add off zero n = let e : 0 + n ≡ n = omega arith in rw e
  after-add off (suc m) n =
      let e : suc m + n ≡ suc (m + n) = omega arith in rw e (after-add (next off) m n)

  -- Up to the end of the text a piece of it is a plain slice.
  pub after_lem :
      (off n : ℕ)
      → off < length text
      → off + n ≤ length text
      → after off n ≡ (if off + n == length text then 0 else off + n)
  unfolding after
  after_lem off zero h fits = ground arith
  after_lem off (suc zero) h fits = ground arith
  after_lem off (suc (suc n)) h fits = ground (arith, after_lem (off + 1) (suc n))

  pub cyclic_lem : (off n : ℕ) → off + n ≤ length text → cyclic off n ≡ take n (drop off text)
  unfolding cyclic
  cyclic_lem off zero fits = refl
  cyclic_lem off (suc zero) fits = rw (take-drop-cons text off 0 (omega arith))
  cyclic_lem off (suc (suc n)) fits =
      let e : next off ≡ off + 1 = ground arith in
      rw (take-drop-cons text off (suc n) (omega arith), e)
        (ap (λ t. get_or text off 0 ∷ t) (cyclic_lem (off + 1) (suc n) (omega arith)))

  pub after-lt : (off n : ℕ) → off < length text → after off n < length text
  unfolding after
  after-lt off zero h = h
  after-lt off (suc n) h = ground (arith, after-lt (next off) n)

  pub length-cyclic : (off n : ℕ) → length (cyclic off n) ≡ n
  unfolding cyclic
  length-cyclic off zero = refl
  length-cyclic off (suc n) = omega (arith, length-cyclic (next off) n)
