-- ===== src/Octet/Extract.antt =====
-- `extract_last_octet` on the text of an address.
use mathlib.Core.List.{append_assoc}
use native.Mathlib.Nat.{add-zero, zero-add}
use equic.Prelude.{
  ℕ, zero, suc, ◌+◌, ◌≡◌, ◌<◌, refl, arith, true, some, [], ◌∷◌, ◌++◌, Bytes, length, length-append,
  drop, get_or, Bool-cases, ltb, inl, inr, ◌/◌, ◌%◌,
}
use equic.Net.{InAddr, IsAddr}
use equic.Octet.{decimal, inet_ntoa, find_dot, read_octet, extract_last_octet}
use equic.Octet.Digits.{dotless, get_or-dotless, digits, check_lem}

get_or-append : (xs ys : Bytes) (k d : ℕ) → get_or (xs ++ ys) (length xs + k) d ≡ get_or ys k d
get_or-append [] ys k d = let e : 0 + k ≡ k = omega arith in rw e
get_or-append (x ∷ xs) ys k d =
    let e : suc (length xs) + k ≡ suc (length xs + k) = omega arith in
    rw e (get_or-append xs ys k d)

drop-append : (xs ys : Bytes) (c : ℕ) → drop (length xs + 1) (xs ++ (c ∷ ys)) ≡ ys
drop-append [] ys c = refl
drop-append (x ∷ xs) ys c =
    let e : suc (length xs) + 1 ≡ suc (length xs + 1) = omega arith in rw e (drop-append xs ys c)

-- From any byte behind the last dot the loop stops at that dot.
find_dot_lem :
    (x : ℕ) (xs ys : Bytes) (k n : ℕ)
    → dotless ys ≡ true
    → find_dot (x ∷ (xs ++ (b'.' ∷ ys))) (suc (length xs + k)) n ≡ (suc (length xs) + 1, n + k)
unfolding find_dot
find_dot_lem x xs ys zero n h =
    ground (arith, get_or-append xs (b'.' ∷ ys) 0 0, add-zero (length xs), add-zero n)
find_dot_lem x xs ys (suc k) n h =
    let e : length xs + suc k ≡ suc (length xs + k) = omega arith in
    let f : n + suc k ≡ n + 1 + k = omega arith in
    let here : get_or (xs ++ (b'.' ∷ ys)) (suc (length xs + k)) 0 ≡ get_or ys k 0 =
      rw (← e) (get_or-append xs (b'.' ∷ ys) (suc k) 0) in
    rw (e, f) (ground (arith, here, get_or-dotless ys k h, find_dot_lem x xs ys k (n + 1) h))

length-ne-nil : (d : ℕ) → (x : ℕ) × (xs : Bytes) × (decimal d ≡ x ∷ xs)
unfolding decimal
length-ne-nil d = elim (Bool-cases (ltb d 10)) [
  | inl e ↦ (b'0' + d, [], rw e)
  | inr e ↦ elim (Bool-cases (ltb d 100)) [
    | inl f ↦ (b'0' + d / 10, (b'0' + d % 10) ∷ [], rw (e, f))
    | inr f ↦ (b'0' + d / 100, (b'0' + d / 10 % 10) ∷ (b'0' + d % 10) ∷ [], rw (e, f))
  ]
]

last_octet :
    (x : ℕ) (xs : Bytes) (d : ℕ)
    → d < 256
    → extract_last_octet (x ∷ (xs ++ (b'.' ∷ decimal d))) ≡ some d
unfolding extract_last_octet read_octet
last_octet x xs d h =
    let (no_dot, fits, read) = check_lem d h in
    let e : length (x ∷ (xs ++ (b'.' ∷ decimal d))) ≡ suc (length xs + length (digits d)) =
      omega (arith, length-append xs (b'.' ∷ decimal d), length-append (decimal d) (0 ∷ [])) in
    rw
      (
        e,
        append_assoc xs (b'.' ∷ decimal d) (0 ∷ []),
        find_dot_lem x xs (digits d) (length (digits d)) 0 no_dot,
        zero-add (length (digits d)),
        drop-append (x ∷ xs) (digits d) b'.',
        fits,
        read,
      )
      refl

-- `extract_last_octet` of the text of any IPv4 address is its last octet; it writes no byte past
-- its buffer and reads only bytes that it wrote.
pub extract_last_octet-inet_ntoa :
    (i : InAddr) → IsAddr i → extract_last_octet (inet_ntoa i) ≡ some i.d
unfolding inet_ntoa
extract_last_octet-inet_ntoa i h =
    let (x, xs, e) = length-ne-nil i.a in
    rw e (last_octet x (xs ++ (b'.' ∷ decimal i.b) ++ (b'.' ∷ decimal i.c)) i.d h.d_byte)
