-- ===== src/Prelude/Slices.antt =====
-- Parts of lists that follow one another, and the small facts on numbers that they need.
use Prim.Native.Nat.{ℕ, zero, suc, ◌+◌, ◌-◌, ◌≤◌, ◌<◌, min}
use mathlib.Core.Path.{◌≡◌, refl, ap, sym, ◌∙◌}
use mathlib.Core.Logic.{◌⊎◌, inl, inr}
use mathlib.Core.List.{List, [], ◌∷◌, ◌++◌}
use native.Mathlib.Omega.{arith}
use equic.Prelude.Lists.{length, take, drop, length-take}

pub le_cases : (a b : ℕ) → a ≤ b → (a ≡ b) ⊎ (a < b)
le_cases a b h = omega arith

pub sub_add : (a b c : ℕ) → a - b - c ≡ a - (b + c)
sub_add a b c = omega arith

pub sub_none : (a k : ℕ) → k ≡ 0 → a ≡ a - k
sub_none a k e = omega arith

pub le_or_gt : (a b : ℕ) → (a ≤ b) ⊎ (b < a)
le_or_gt a b = omega arith

from_zero : (n : ℕ) → 0 + n ≡ n
from_zero n = omega arith

from_suc : (a n : ℕ) → suc a + n ≡ suc (a + n)
from_suc a n = omega arith

module _ {ℓ} {A : Type ℓ} where
  pub take_add : (a n : ℕ) (xs : List A) → take (a + n) xs ≡ take a xs ++ take n (drop a xs)
  take_add zero n xs = ap (λ k. take k xs) (from_zero n)
  take_add (suc a) zero [] = ap (λ k. take k []) (from_suc a 0)
  take_add (suc a) (suc n) [] = ap (λ k. take k []) (from_suc a (suc n))
  take_add (suc a) n (x ∷ xs) =
      ap (λ k. take k (x ∷ xs)) (from_suc a n) ∙ ap (λ l. x ∷ l) (take_add a n xs)

  pub drop_add : (a n : ℕ) (xs : List A) → drop (a + n) xs ≡ drop n (drop a xs)
  drop_add zero n xs = ap (λ k. drop k xs) (from_zero n)
  drop_add (suc a) zero [] = ap (λ k. drop k []) (from_suc a 0)
  drop_add (suc a) (suc n) [] = ap (λ k. drop k []) (from_suc a (suc n))
  drop_add (suc a) n (x ∷ xs) = ap (λ k. drop k (x ∷ xs)) (from_suc a n) ∙ drop_add a n xs

  pub take_full : (n : ℕ) (xs : List A) → length xs ≤ n → take n xs ≡ xs
  take_full zero [] h = refl
  take_full zero (x ∷ xs) h = absurd (omega arith)
  take_full (suc n) [] h = refl
  take_full (suc n) (x ∷ xs) h = rw (take_full n xs (omega arith)) refl

  pub drop_full : (n : ℕ) (xs : List A) → length xs ≤ n → drop n xs ≡ []
  drop_full zero [] h = refl
  drop_full zero (x ∷ xs) h = absurd (omega arith)
  drop_full (suc n) [] h = refl
  drop_full (suc n) (x ∷ xs) h = drop_full n xs (omega arith)

  -- Two bounds, one inside the other.
  pub take-take : (m n : ℕ) (xs : List A) → take m (take n xs) ≡ take (min m n) xs
  take-take zero n xs = let e : min 0 n ≡ 0 = omega arith in rw e refl
  take-take (suc m) zero xs = let e : min (suc m) 0 ≡ 0 = omega arith in rw e refl
  take-take (suc m) (suc n) [] =
      let e : min (suc m) (suc n) ≡ suc (min m n) = omega arith in rw e refl
  take-take (suc m) (suc n) (x ∷ xs) =
      let e : min (suc m) (suc n) ≡ suc (min m n) = omega arith in rw (e, take-take m n xs) refl

  take_none : (n : ℕ) → ◌≡◌ {A = List A} [] (take n [])
  take_none zero = refl
  take_none (suc n) = refl

  pub drop-take : (m n : ℕ) (xs : List A) → drop m (take n xs) ≡ take (n - m) (drop m xs)
  drop-take zero n xs = ap (λ k. take k xs) (sub_none n 0 refl)
  drop-take (suc m) zero xs = let e : 0 - suc m ≡ 0 = omega arith in rw e refl
  drop-take (suc m) (suc n) [] = take_none (suc n - suc m)
  drop-take (suc m) (suc n) (x ∷ xs) =
      let e : suc n - suc m ≡ n - m = omega arith in rw e (drop-take m n xs)

  -- What a bounded read leaves of a bounded list.
  drop-min : (count m : ℕ) (xs : List A) → length xs ≤ m → drop (min count m) xs ≡ drop count xs
  drop-min count m xs h = elim (le_or_gt count m) [
    | inl le ↦ let e : min count m ≡ count = omega arith in rw e refl
    | inr gt ↦
        let e : min count m ≡ m = omega arith in
        rw (e, drop_full m xs h, drop_full count xs (omega arith)) refl
  ]

  take-min-drop :
      (m k : ℕ) (xs : List A) → take (m - min k (length xs)) (drop k xs) ≡ take (m - k) (drop k xs)
  take-min-drop m k xs = elim (le_or_gt k (length xs)) [
    | inl le ↦ let e : min k (length xs) ≡ k = omega arith in rw e refl
    | inr gt ↦
        rw (drop_full k xs (omega arith))
          (sym (take_none (m - min k (length xs))) ∙ take_none (m - k))
  ]

  pub take-min-drop-min :
      (m count : ℕ) (xs : List A)
      → take (m - min (min count m) (length xs)) (drop (min count m) xs) ≡ drop count (take m xs)
  take-min-drop-min m count xs =
      take-min-drop m (min count m) xs
      ∙ sym (drop-take (min count m) m xs)
      ∙ drop-min count m (take m xs) (omega (arith, length-take m xs))
