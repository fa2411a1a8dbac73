-- ===== src/Counters/History.antt =====
-- Whole histories of connections against an abstract tally of the open connections of each client.

use equic.Prelude.{
  ℕ, suc, true, ◌+◌, ◌-◌, ◌≤◌, ◌<◌, ◌^◌, ◌≡◌, ◌⊎◌, inl, refl, arith, Option, none, some, List, [],
  ◌∷◌, ◌==◌, length, ap, ==_iff, if◌then◌else◌,
}
use equic.Kern.{max_entries}
use equic.Net.{InAddr, be32}
use equic.BpfMap.{BpfMap}
use equic.Counters.{Event, opened, closed, equic_inc_counter, equic_dec_counter, step, run}
use equic.Counters.Laws.{
  incremented, decremented, lookup-equic_inc_counter, lookup-equic_dec_counter,
  size-equic_inc_counter, size-equic_dec_counter,
}

-- The open connections of each key. A close with none open changes nothing.
abbrev pub Tally : Type 0
Tally = ℕ → ℕ

abbrev pub count : Tally → Event → Tally
count t (opened c) k = if be32 c == k then t k + 1 else t k
count t (closed c) k = if be32 c == k then t k - 1 else t k

unfoldable pub tally : Tally → List Event → Tally
tally t [] = t
tally t (e ∷ es) = tally (count t e) es

abbrev pub opens : ℕ → List Event → ℕ
opens k [] = 0
opens k (opened c ∷ es) = if be32 c == k then suc (opens k es) else opens k es
opens k (closed c ∷ es) = opens k es

abbrev pub closes : ℕ → List Event → ℕ
closes k [] = 0
closes k (opened c ∷ es) = closes k es
closes k (closed c ∷ es) = if be32 c == k then suc (closes k es) else closes k es

-- Every close of a history is that of a connection open at that moment.
abbrev pub IsMatched : Tally → List Event → Type 0
IsMatched t [] = Unit
IsMatched t (opened c ∷ es) = IsMatched (count t (opened c)) es
IsMatched t (closed c ∷ es) = (0 < t (be32 c)) × IsMatched (count t (closed c)) es

pub at_key : (t : Tally) (i k : ℕ) → (i == k) ≡ true → t i ≡ t k
at_key t i k e = ap t ((==_iff i k).0 e)

-- A matched tally is exact: what was open, and what was opened, is open or was closed.
pub tally-add-closes :
    (k : ℕ) (t : Tally) (es : List Event)
    → IsMatched t es
    → tally t es k + closes k es ≡ t k + opens k es
unfolding tally
tally-add-closes k t [] h = refl
tally-add-closes k t (opened c ∷ es) h =
    ground (arith, tally-add-closes k (count t (opened c)) es h)
tally-add-closes k t (closed c ∷ es) h =
    ground (arith, at_key t (be32 c) k, tally-add-closes k (count t (closed c)) es h.1)

pub tally-le-add-length : (k : ℕ) (t : Tally) (es : List Event) → tally t es k ≤ t k + length es
unfolding tally
tally-le-add-length k t [] = omega arith
tally-le-add-length k t (opened c ∷ es) =
    ground (arith, tally-le-add-length k (count t (opened c)) es)
tally-le-add-length k t (closed c ∷ es) =
    ground (arith, tally-le-add-length k (count t (closed c)) es)

-- The number that a key stands for: 0 if it is not in the map.
abbrev pub value : Option ℕ → ℕ
value none = 0
value (some v) = v

module _ (bpf : BpfMap) where
  open bpf use {Map, lookup, size}

  -- The map stands for the tally.
  abbrev pub Counts : Map → Tally → Type 0
  Counts m t = (k : ℕ) → value (lookup m k) ≡ t k

  -- Each client that opens a connection is in the map or finds room in it.
  abbrev pub Fits : Map → List Event → Type 0
  Fits m [] = Unit
  Fits m (opened c ∷ es) =
      ((size m < max_entries) ⊎ ((v : ℕ) × (lookup m (be32 c) ≡ some v)))
      × Fits (equic_inc_counter bpf m c) es
  Fits m (closed c ∷ es) = Fits (equic_dec_counter bpf m c) es

  value-decremented : (found : Option ℕ) → value (decremented found) ≡ value found - 1
  value-decremented none = omega arith
  value-decremented (some v) = refl

  value-incremented :
      (n : ℕ) (found : Option ℕ)
      → (n < max_entries) ⊎ ((v : ℕ) × (found ≡ some v))
      → value found + 1 < 2 ^ 32
      → value (incremented n found) ≡ value found + 1
  value-incremented n none h b = ground arith
  value-incremented n (some v) h b = omega arith

  pub inc-Counts :
      (m : Map) (t : Tally) (c : InAddr)
      → (size m < max_entries) ⊎ ((v : ℕ) × (lookup m (be32 c) ≡ some v))
      → ((k : ℕ) → t k + 1 < 2 ^ 32)
      → Counts m t
      → Counts (equic_inc_counter bpf m c) (count t (opened c))
  inc-Counts m t c fits bound h k = rw (lookup-equic_inc_counter bpf m c k) (
      ground (
        arith,
        h k,
        bound k,
        λ (e : (be32 c == k) ≡ true).
            value-incremented (size m) (lookup m k)
              (rw (ap (lookup m) ((==_iff (be32 c) k).0 e)) at fits),
      ))

  pub dec-Counts :
      (m : Map) (t : Tally) (c : InAddr)
      → Counts m t
      → Counts (equic_dec_counter bpf m c) (count t (closed c))
  dec-Counts m t c h k =
      rw (lookup-equic_dec_counter bpf m c k) (ground (arith, h k, value-decremented (lookup m k)))

  -- If the map stands for a tally, every client of the history finds room, and no counter can reach
  -- 2 ^ 32 within it, then after the history the map stands for the tally of the history.
  pub run-Counts :
      (m : Map) (t : Tally) (es : List Event)
      → Counts m t
      → Fits m es
      → ((k : ℕ) → t k + length es < 2 ^ 32)
      → Counts (run bpf m es) (tally t es)
  unfolding run step tally
  run-Counts m t [] h fits bound = h
  run-Counts m t (opened c ∷ es) h fits bound =
      run-Counts (equic_inc_counter bpf m c) (count t (opened c)) es
        (inc-Counts m t c fits.0 (λ k. omega (arith, bound k)) h) fits.1
        (λ k. ground (arith, bound k))
  run-Counts m t (closed c ∷ es) h fits bound =
      run-Counts (equic_dec_counter bpf m c) (count t (closed c)) es (dec-Counts m t c h) fits
        (λ k. ground (arith, bound k))

  -- A map with a free entry for each connection that a history opens has room for the history.
  pub size-Fits : (m : Map) (es : List Event) → size m + length es ≤ max_entries → Fits m es
  size-Fits m [] h = tt
  size-Fits m (opened c ∷ es) h = (
    inl (omega arith),
    size-Fits (equic_inc_counter bpf m c) es (omega (arith, size-equic_inc_counter bpf m c)),
  )
  size-Fits m (closed c ∷ es) h =
      size-Fits (equic_dec_counter bpf m c) es (omega (arith, size-equic_dec_counter bpf m c))

  -- Where moreover every close is that of an open connection, the counter of each key is exact: with
  -- the connections closed it makes up those open at the start and those opened since.
  pub run-value-add-closes :
      (m : Map) (t : Tally) (es : List Event) (k : ℕ)
      → Counts m t
      → Fits m es
      → ((j : ℕ) → t j + length es < 2 ^ 32)
      → IsMatched t es
      → value (lookup (run bpf m es) k) + closes k es ≡ t k + opens k es
  run-value-add-closes m t es k h fits bound matched =
      rw (run-Counts m t es h fits bound k) (tally-add-closes k t es matched)
