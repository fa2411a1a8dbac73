-- ===== src/GenFile/Size.antt =====
-- http_server.c, the size of a generated file in `http_server_interop_on_read`: digits, and a letter
-- K, M or G. A `size_t` has 64 bits.
use equic.Prelude.{
  ℕ, ◌+◌, ◌-◌, ◌*◌, ◌%◌, ◌^◌, ◌<◌, ◌≡◌, ◌⊎◌, arith, min, Bool, true, false, ◌&&◌, ◌||◌, Option,
  none, some, [], ◌∷◌, Bytes, leb, ltb, ◌==◌, if◌then◌else◌,
}

-- `strtol` of text that begins with a digit: it stops at the first other byte, and at LONG_MAX.
unfoldable pub strtol_from : ℕ → Bytes → ℕ
strtol_from acc [] = min acc (2 ^ 63 - 1)
strtol_from acc (c ∷ cs) = elim (leb b'0' c && leb c b'9') [
  | true ↦ strtol_from (10 * acc + (c - b'0')) cs
  | false ↦ min acc (2 ^ 63 - 1)
]

abbrev pub strtol : Bytes → ℕ
strtol = strtol_from 0

-- `remain <<= bits`
abbrev pub shifted : ℕ → ℕ → ℕ
shifted remain bits = (remain * 2 ^ bits) % 2 ^ 64

-- The `switch` on the letter.
unfoldable pub scaled : ℕ → ℕ → ℕ
scaled remain c =
    if c == b'G' || c == b'g'
    then shifted remain 30
    else if c == b'M' || c == b'm'
    then shifted remain 20
    else if c == b'K' || c == b'k'
    then shifted remain 10
    else remain

-- `2 * (1u << 30)`
abbrev pub size_limit : ℕ
size_limit = 2 * 2 ^ 30

-- The size, and whether it is refused.
unfoldable pub gen_size : ℕ → Option ℕ → ℕ × Bool
gen_size number none = (number, ltb size_limit number)
gen_size number (some c) = (scaled number c, ltb size_limit (scaled number c))

-- The bytes that a letter stands for.
unfoldable pub unit_of : ℕ → ℕ
unit_of c =
    if c == b'G' || c == b'g'
    then 2 ^ 30
    else if c == b'M' || c == b'm'
    then 2 ^ 20
    else if c == b'K' || c == b'k'
    then 2 ^ 10
    else 1

-- For a number below 2 ^ 34 the size is the number times the unit of its letter, and it is refused
-- exactly if it is above 2 GiB.
pub gen_size-unit_of :
    (number c : ℕ)
    → number < 2 ^ 34
    → gen_size number (some c) ≡ (number * unit_of c, ltb (2 * 2 ^ 30) (number * unit_of c))
unfolding gen_size scaled unit_of
gen_size-unit_of number c h = ground (arith, whole number h, small number h)
  where
    whole : (n : ℕ) → n < 2 ^ 34 → (n * 2 ^ 30) % 2 ^ 64 ≡ n * 2 ^ 30
    whole n h = omega arith

    small :
        (n : ℕ)
        → n < 2 ^ 34
        → ((n * 2 ^ 20) % 2 ^ 64 ≡ n * 2 ^ 20) × ((n * 2 ^ 10) % 2 ^ 64 ≡ n * 2 ^ 10)
    small n h = omega arith

-- A multiple of 2 ^ 34 with the letter G is accepted, however large, and is a size of 0.
pub gen_size-wraps :
    (k c : ℕ) → (c ≡ b'G') ⊎ (c ≡ b'g') → gen_size (k * 2 ^ 34) (some c) ≡ (0, false)
unfolding gen_size scaled
gen_size-wraps k c h = ground (arith, wrapped k)
  where
    wrapped : (k : ℕ) → (k * 2 ^ 34 * 2 ^ 30) % 2 ^ 64 ≡ 0
    wrapped k = omega arith
