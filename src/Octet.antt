-- ===== src/Octet.antt =====
-- http_server.c, `extract_last_octet`: the last octet of the client's address, which indexes the
-- quotas that the server keeps where no eBPF program is loaded. Of the C library the model has what
-- the function uses: `inet_ntoa`, `strncpy`, and `atoi` on text that begins with a digit.
pub mod Digits
pub mod Extract
mod Tests
use equic.Prelude.{
  ℕ, zero, suc, ◌+◌, ◌-◌, ◌*◌, ◌/◌, ◌%◌, Bool, true, false, ◌&&◌, ◌||◌, Option, none, some, List,
  [], ◌∷◌, ◌++◌, Bytes, length, drop, get_or, ltb, leb, ◌==◌, if◌then◌else◌,
}
use equic.Net.{InAddr}

-- A number below 1000 in decimal.
pub decimal : ℕ → Bytes
decimal n =
    if ltb n 10
    then (b'0' + n) ∷ []
    else if ltb n 100
    then (b'0' + n / 10) ∷ (b'0' + n % 10) ∷ []
    else (b'0' + n / 100) ∷ (b'0' + n / 10 % 10) ∷ (b'0' + n % 10) ∷ []

-- The text without its NUL.
pub inet_ntoa : InAddr → Bytes
inet_ntoa i = (decimal i.a ++ (b'.' ∷ decimal i.b) ++ (b'.' ∷ decimal i.c)) ++ (b'.' ∷ decimal i.d)

-- `strncpy`: exactly `n` bytes, those behind the NUL zero.
pub strncpy : ℕ → Bytes → Bytes
strncpy zero src = []
strncpy (suc n) [] = 0 ∷ strncpy n []
strncpy (suc n) (c ∷ cs) = elim (c == 0) [ true ↦ 0 ∷ strncpy n [] | false ↦ c ∷ strncpy n cs ]

is_digit : ℕ → Bool
is_digit c = leb b'0' c && leb c b'9'

pub atoi_from : ℕ → Bytes → ℕ
unfolding is_digit
atoi_from acc [] = acc
atoi_from acc (c ∷ cs) = elim (is_digit c) [
  | true ↦ atoi_from (10 * acc + (c - b'0')) cs
  | false ↦ acc
]

pub has_nul : Bytes → Bool
has_nul [] = false
has_nul (c ∷ cs) = c == 0 || has_nul cs

-- The `for` loop, from `i` down: the index behind the last dot (0 if there is none), and how many
-- bytes were passed. `addr` has its NUL here.
find_dot : Bytes → ℕ → ℕ → ℕ × ℕ
find_dot addr zero n = (0, n)
find_dot addr (suc i) n = elim (get_or addr (suc i) 0 == b'.') [
  | true ↦ (suc i + 1, n)
  | false ↦ find_dot addr i (n + 1)
]

-- `char octet[4]`
abbrev size_of_octet : ℕ
size_of_octet = 4

-- `strncpy` into the buffer and `atoi` of it. `none` is a write past `octet`, or a read of bytes of
-- it that were never written.
read_octet : Bytes → ℕ × ℕ → Option ℕ
read_octet addr (index, n) =
    let octet = strncpy n (drop index addr) in
    if leb n size_of_octet && has_nul octet then some (atoi_from 0 octet) else none

pub extract_last_octet : Bytes → Option ℕ
extract_last_octet text =
    let addr = text ++ (0 ∷ []) in read_octet addr (find_dot addr (length text) 0)
