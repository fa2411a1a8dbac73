-- ===== src/FileServer/Hq/Path.antt =====
-- The path in a request of the hq mode.

use equic.Prelude.{
  ℕ, ◌≡◌, ◌≢◌, refl, ap, ◌∙◌, arith, true, false, ◌&&◌, ◌+◌, ◌⊎◌, none, some, [], ◌∷◌, ◌++◌, Bytes,
  codes, if◌then◌else◌,
}
use equic.Request.{strndup}
use equic.Routes.{same_letters}
use equic.FileServer.Hq.{
  before_space, is_end, is_nil, trim_end, path_from, path_after, requested_path,
}

-- Bytes that are not NUL, and bytes that end a request.
abbrev pub NoNul : Bytes → Type 0
NoNul [] = Unit
NoNul (c ∷ cs) = (c ≢ 0) × NoNul cs

abbrev pub AreEnd : Bytes → Type 0
AreEnd [] = Unit
AreEnd (c ∷ cs) = (is_end c ≡ true) × AreEnd cs

trim_end-AreEnd : (ends : Bytes) → AreEnd ends → trim_end ends ≡ []
unfolding trim_end
trim_end-AreEnd [] h = refl
trim_end-AreEnd (c ∷ cs) h = rw (trim_end-AreEnd cs h.1, h.0) refl

-- The last byte is no end.
abbrev pub EndsWell : Bytes → Type 0
EndsWell [] = Unit
EndsWell (c ∷ []) = is_end c ≡ false
EndsWell (c ∷ d ∷ cs) = EndsWell (d ∷ cs)

trim_end-append : (text ends : Bytes) → EndsWell text → AreEnd ends → trim_end (text ++ ends) ≡ text
unfolding trim_end
trim_end-append [] ends h e = trim_end-AreEnd ends e
trim_end-append (c ∷ []) ends h e = rw (trim_end-AreEnd ends e, h) refl
trim_end-append (c ∷ d ∷ cs) ends h e =
    ap (λ rest. if is_nil rest && is_end c then [] else c ∷ rest)
      (trim_end-append (d ∷ cs) ends h e)

strndup_all : (text : Bytes) → NoNul text → strndup text ≡ text
unfolding strndup
strndup_all [] h = refl
strndup_all (c ∷ cs) h = ground (arith, strndup_all cs h.1)

path_from-path :
    (c : ℕ) (cs ends : Bytes)
    → NoNul (c ∷ cs)
    → EndsWell cs
    → AreEnd ends
    → path_from (c ∷ (cs ++ ends)) ≡ c ∷ cs
unfolding path_from
path_from-path c cs ends n w e =
    ap (λ rest. strndup (c ∷ rest)) (trim_end-append cs ends w e) ∙ strndup_all (c ∷ cs) n

-- Bytes of a method.
abbrev IsWord : ℕ → Type 0
IsWord c = (c ≢ 0) × (c ≢ b' ')

before_space-word :
    (x y z : ℕ) (rest : Bytes)
    → IsWord x
    → IsWord y
    → IsWord z
    → before_space (strndup (x ∷ y ∷ z ∷ b' ' ∷ rest)) ≡ some (x ∷ y ∷ z ∷ [])
unfolding before_space strndup
before_space-word x y z rest p q r = ground arith

-- A letter, capital or small.
abbrev pub IsLetter : ℕ → ℕ → Type 0
IsLetter capital c = (c ≡ capital) ⊎ (c ≡ capital + 32)

get_letters :
    (x y z : ℕ)
    → IsLetter b'G' x
    → IsLetter b'E' y
    → IsLetter b'T' z
    → same_letters (x ∷ y ∷ z ∷ []) (codes "GET") ≡ true
get_letters x y z p q r = ground arith

-- For every path that is not empty, has no NUL and, unless it is of one byte, does not end with CR or
-- LF: from a request of the word GET in capital or small letters, a space, the path, and any CR, LF
-- and NUL behind it, the path is what is read.
pub requested_path_lem :
    (x y z c : ℕ) (cs ends : Bytes)
    → IsLetter b'G' x
    → IsLetter b'E' y
    → IsLetter b'T' z
    → NoNul (c ∷ cs)
    → EndsWell cs
    → AreEnd ends
    → requested_path (x ∷ y ∷ z ∷ b' ' ∷ (c ∷ cs) ++ ends) ≡ some (c ∷ cs)
unfolding requested_path path_after
requested_path_lem x y z c cs ends p q r n w e =
    ap (path_after (x ∷ y ∷ z ∷ b' ' ∷ c ∷ (cs ++ ends)))
      (before_space-word x y z (c ∷ (cs ++ ends)) (omega arith) (omega arith) (omega arith))
    ∙ ap (λ b. if b then some (path_from (c ∷ (cs ++ ends))) else none) (get_letters x y z p q r)
    ∙ ap some (path_from-path c cs ends n w e)
