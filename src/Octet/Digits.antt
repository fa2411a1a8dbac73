-- ===== src/Octet/Digits.antt =====
-- The decimal text of an octet, checked for each of the 256 values.
use equic.Prelude.{
  ℕ, zero, suc, ◌≡◌, ◌<◌, refl, arith, Bool, true, false, get_or, not, ◌&&◌, [], ◌∷◌, ◌++◌, Bytes,
  length, leb, ◌==◌,
}
use equic.Octet.{decimal, strncpy, atoi_from, has_nul, size_of_octet}

pub dotless : Bytes → Bool
dotless [] = true
dotless (c ∷ cs) = not (c == b'.') && dotless cs

pub get_or-dotless : (xs : Bytes) (k : ℕ) → dotless xs ≡ true → (get_or xs k 0 == b'.') ≡ false
unfolding dotless
get_or-dotless [] k h = refl
get_or-dotless (x ∷ xs) zero h = ground arith
get_or-dotless (x ∷ xs) (suc k) h = get_or-dotless xs k (ground arith)

-- The text of an octet with its NUL.
abbrev pub digits : ℕ → Bytes
digits d = decimal d ++ (0 ∷ [])

abbrev pub copied : ℕ → Bytes
copied d = strncpy (length (digits d)) (digits d)

abbrev check : ℕ → Bool
check d =
    dotless (digits d)
    && (leb (length (digits d)) size_of_octet
        && (has_nul (copied d) && (atoi_from 0 (copied d) == d)))

-- The check of the first `n` octets.
checked : ℕ → Bool
checked zero = true
checked (suc d) = checked d && check d

checked-check : (d n : ℕ) → d < n → checked n ≡ true → check d ≡ true
unfolding checked
checked-check d zero below passed = elim below [ ]
checked-check d (suc n) below passed = ground (arith, checked-check d n)

octets_checked : checked 256 ≡ true
unfolding checked dotless decimal strncpy atoi_from has_nul
octets_checked = refl

pub check_lem :
    (d : ℕ)
    → d < 256
    → (dotless (digits d) ≡ true)
      × ((leb (length (digits d)) size_of_octet && has_nul (copied d)) ≡ true)
      × (atoi_from 0 (copied d) ≡ d)
check_lem d h = ground (arith, checked-check d 256 h octets_checked)
