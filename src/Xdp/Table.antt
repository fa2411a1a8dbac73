-- ===== src/Xdp/Table.antt =====
-- The documented behaviour can be met: a function from interfaces to programs, where the program
-- behind a descriptor has the next number.
use equic.Prelude.{ℕ, zero, suc, ◌≡◌, ◌≢◌, refl, Option, none, some, ◌==◌, if◌then◌else◌, sym, ap}
use equic.Xdp.{Xdp}

abbrev pub Programs : Type 0
Programs = ℕ → ℕ

abbrev put : Programs → ℕ → ℕ → Programs
put s i id = λ j. if i == j then id else s j

abbrev pub attach_free : Programs → ℕ → ℕ → ℕ → Option Programs
attach_free s i fd zero = some (put s i (suc fd))
attach_free s i fd (suc id) = none

pub attach_free-busy : (s : Programs) (i fd id : ℕ) → id ≢ 0 → attach_free s i fd id ≡ none
attach_free-busy s i fd zero h = absurd (h refl)
attach_free-busy s i fd (suc id) h = refl

-- The program that an update leaves.
at_of : ℕ → Option Programs → ℕ → ℕ
at_of d none j = d
at_of d (some s) j = s j

pub attach_free-stored :
    (s : Programs) (i fd j id : ℕ) {s' : Programs}
    → attach_free s i fd id ≡ some s'
    → s' j ≡ (if i == j then suc fd else s j)
unfolding at_of
attach_free-stored s i fd j zero h = sym (ap (λ o. at_of 0 o j) h)
attach_free-stored s i fd j (suc id) h = absurd (cc h)

pub detached-stored :
    (s : Programs) (i j : ℕ) {s' : Programs}
    → some (put s i 0) ≡ some s'
    → s' j ≡ (if i == j then 0 else s j)
unfolding at_of
detached-stored s i j h = sym (ap (λ o. at_of 0 o j) h)

abbrev pub table : Xdp
table = record {
  State = Programs;
  attached = λ s i. s i;
  prog_id = λ fd. suc fd;
  attach = λ s i fd. attach_free s i fd (s i);
  detach = λ s i. some (put s i 0);
  attach_busy = λ s i fd h. attach_free-busy s i fd (s i) h;
  attach_stored = λ s i fd j h. attach_free-stored s i fd j (s i) h;
  detach_stored = λ s i j h. detached-stored s i j h;
}
