-- ===== src/FileServer/ContentType.antt =====
-- http_server.c, `ends_with` and `select_content_type`. A C string is its bytes before the NUL.
mod Tests
use equic.Prelude.{
  ℕ, ◌+◌, ◌≤◌, ◌<◌, ◌≡◌, ◌≢◌, ◌↔◌, ◌⊎◌, inl, inr, refl, ap, sym, ◌∙◌, arith, Bool, true, false,
  ◌&&◌, Option, none, some, List, [], ◌∷◌, ◌++◌, Bytes, codes, length, length-append, ◌==◌,
  if◌then◌else◌, Bool-cases,
}

pub is_prefix : Bytes → Bytes → Bool
is_prefix [] s = true
is_prefix (c ∷ cs) [] = false
is_prefix (c ∷ cs) (x ∷ xs) = c == x && is_prefix cs xs

-- `strstr`: the text from the first occurrence on.
pub strstr : Bytes → Bytes → Option Bytes
unfolding is_prefix
strstr [] ext = if is_prefix ext [] then some [] else none
strstr (c ∷ cs) ext = if is_prefix ext (c ∷ cs) then some (c ∷ cs) else strstr cs ext

has_length : Bytes → Option Bytes → Bool
has_length ext none = false
has_length ext (some where_) = length where_ == length ext

pub ends_with : Bytes → Bytes → Bool
unfolding strstr has_length
ends_with filename ext = has_length ext (strstr filename ext)

unfoldable pub select_content_type : Bytes → Bytes
unfolding ends_with
select_content_type req_filename =
    if ends_with req_filename (codes ".html")
    then codes "text/html"
    else if ends_with req_filename (codes ".png")
    then codes "image/png"
    else if ends_with req_filename (codes ".css")
    then codes "text/css"
    else if ends_with req_filename (codes ".gif")
    then codes "image/gif"
    else if ends_with req_filename (codes ".txt")
    then codes "text/plain"
    else codes "application/octet-stream"

is_prefix_split : (ext s : Bytes) → is_prefix ext s ≡ true → length s ≡ length ext → s ≡ ext
unfolding is_prefix
is_prefix_split [] [] h e = refl
is_prefix_split [] (x ∷ xs) h e = absurd (omega (arith, e))
is_prefix_split (c ∷ cs) [] h e = absurd (omega (arith, e))
is_prefix_split (c ∷ cs) (x ∷ xs) h e = ground (arith, is_prefix_split cs xs)

-- The extension begins with a byte that it does not have again.
abbrev pub Lacks : ℕ → Bytes → Type 0
Lacks c [] = Unit
Lacks c (x ∷ xs) = (x ≢ c) × Lacks c xs

is_prefix-append : (ext s t : Bytes) → is_prefix ext s ≡ true → is_prefix ext (s ++ t) ≡ true
unfolding is_prefix
is_prefix-append [] s t h = refl
is_prefix-append (c ∷ cs) [] t h = cc
is_prefix-append (c ∷ cs) (x ∷ xs) t h = ground (arith, is_prefix-append cs xs t)

is_prefix_refl : (ext : Bytes) → is_prefix ext ext ≡ true
unfolding is_prefix
is_prefix_refl [] = refl
is_prefix_refl (c ∷ cs) = ground (arith, is_prefix_refl cs)

-- An occurrence that ends behind the first byte `d` would contain it.
is_prefix-inside :
    (d : ℕ) (e base rest : Bytes)
    → Lacks d e
    → is_prefix e (base ++ (d ∷ rest)) ≡ true
    → is_prefix e base ≡ true
unfolding is_prefix
is_prefix-inside d [] base rest l h = refl
is_prefix-inside d (x ∷ e) [] rest l h = absurd (l.0 (ground arith))
is_prefix-inside d (x ∷ e) (b ∷ base) rest l h = ground (arith, is_prefix-inside d e base rest l.1)

-- `filename` is `base` with the extension at its end, and it is not in `base`.
abbrev pub IsExtended : Bytes → Bytes → Bytes → Type 0
IsExtended ext filename base = (filename ≡ base ++ ext) × (strstr base ext ≡ none)

ends_with_first :
    (c : ℕ) (cs ext : Bytes)
    → is_prefix ext (c ∷ cs) ≡ true
    → ends_with (c ∷ cs) ext ≡ (length (c ∷ cs) == length ext)
unfolding ends_with
ends_with_first c cs ext h = ground (arith, h)

ends_with_later :
    (c : ℕ) (cs ext : Bytes)
    → is_prefix ext (c ∷ cs) ≡ false
    → ends_with (c ∷ cs) ext ≡ ends_with cs ext
unfolding ends_with
ends_with_later c cs ext h = ground (arith, h)

strstr_later :
    (c : ℕ) (cs ext : Bytes) → is_prefix ext (c ∷ cs) ≡ false → strstr (c ∷ cs) ext ≡ strstr cs ext
unfolding strstr
strstr_later c cs ext h = ground (arith, h)

-- Nothing is found in a text of which nothing is found behind its first byte.
strstr-none :
    (c : ℕ) (cs ext : Bytes)
    → strstr (c ∷ cs) ext ≡ none
    → (is_prefix ext (c ∷ cs) ≡ false) × (strstr cs ext ≡ none)
unfolding strstr
strstr-none c cs ext h = elim (Bool-cases (is_prefix ext (c ∷ cs))) [
  | inl first ↦ absurd (ground (arith, first, h))
  | inr later ↦ (later, ground (arith, later, h))
]

not_prefix : (ext s t : Bytes) → is_prefix ext (s ++ t) ≡ false → is_prefix ext s ≡ false
not_prefix ext s t h = elim (Bool-cases (is_prefix ext s)) [
  | inl first ↦ absurd (cc (is_prefix-append ext s t first, h))
  | inr later ↦ later
]

module _ (d : ℕ) (e : Bytes) (lacks : Lacks d e) where
  not_prefix-inside :
      (c : ℕ) (base : Bytes)
      → is_prefix (d ∷ e) (c ∷ base) ≡ false
      → is_prefix (d ∷ e) (c ∷ (base ++ (d ∷ e))) ≡ false
  unfolding is_prefix
  not_prefix-inside c base h = elim (Bool-cases (is_prefix (d ∷ e) (c ∷ (base ++ (d ∷ e))))) [
    | inl first ↦ absurd (ground (arith, h, first, is_prefix-inside d e base e lacks))
    | inr later ↦ later
  ]

  ends_with-found :
      (filename : Bytes)
      → ends_with filename (d ∷ e) ≡ true
      → (base : Bytes) × IsExtended (d ∷ e) filename base
  ends_with-found [] h = absurd (unfold ends_with in cc h)
  ends_with-found (c ∷ cs) h = elim (Bool-cases (is_prefix (d ∷ e) (c ∷ cs))) [
    | inl first ↦ (
      [],
      (
        is_prefix_split (d ∷ e) (c ∷ cs) first
            (ground (arith, h, ends_with_first c cs (d ∷ e) first)),
        unfold strstr in refl,
      ),
    )
    | inr later ↦
        let (base, (split, missing)) =
          ends_with-found cs (sym (ends_with_later c cs (d ∷ e) later) ∙ h) in
        (
          c ∷ base,
          (
            ap (λ l. c ∷ l) split,
            strstr_later c base (d ∷ e) (
                  not_prefix (d ∷ e) (c ∷ base) (d ∷ e)
                    (sym (ap (λ l. is_prefix (d ∷ e) (c ∷ l)) split) ∙ later))
                ∙ missing,
          ),
        )
  ]

  ends_with-extended :
      (base : Bytes) → strstr base (d ∷ e) ≡ none → ends_with (base ++ (d ∷ e)) (d ∷ e) ≡ true
  ends_with-extended [] h = ends_with_first d e (d ∷ e) (is_prefix_refl (d ∷ e)) ∙ ground arith
  ends_with-extended (c ∷ base) h =
      let (first, missing) = strstr-none c base (d ∷ e) h in
      ends_with_later c (base ++ (d ∷ e)) (d ∷ e) (not_prefix-inside c base first)
      ∙ ends_with-extended base missing

  -- For an extension whose first byte is not among its others: `ends_with` is true of a name exactly
  -- if the name ends with the extension and does not contain it before.
  pub ends_with_iff :
      (filename : Bytes)
      → (ends_with filename (d ∷ e) ≡ true) ↔ ((base : Bytes) × IsExtended (d ∷ e) filename base)
  ends_with_iff filename = (
    ends_with-found filename,
    λ ((base, (split, missing)) : (base : Bytes) × IsExtended (d ∷ e) filename base).
        ap (λ name. ends_with name (d ∷ e)) split ∙ ends_with-extended base missing,
  )
