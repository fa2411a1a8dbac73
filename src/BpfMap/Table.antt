-- ===== src/BpfMap/Table.antt =====
-- The documented behaviour can be met: an association list of at most `max_entries` keys.

use equic.Prelude.{
  ℕ, ◌+◌, ◌≤◌, ◌<◌, ◌≡◌, refl, arith, Option, none, some, List, [], ◌∷◌, ◌==◌, ltb, length,
  if◌then◌else◌,
}
use equic.Kern.{max_entries}
use equic.BpfMap.{Flag, bpf_exist, bpf_noexist, BpfMap}

abbrev pub Entries : Type 0
Entries = List (ℕ × ℕ)

abbrev pub find : Entries → ℕ → Option ℕ
find [] k = none
find ((i, v) ∷ m) k = if i == k then some v else find m k

abbrev put : Entries → ℕ → ℕ → Entries
put [] k v = []
put ((i, w) ∷ m) k v = if i == k then (i, v) ∷ m else (i, w) ∷ put m k v

abbrev modify : Entries → ℕ → ℕ → Flag → Option ℕ → Option Entries
modify m k v bpf_exist none = none
modify m k v bpf_exist (some w) = some (put m k v)
modify m k v bpf_noexist (some w) = none
modify m k v bpf_noexist none = if ltb (length m) max_entries then some ((k, v) ∷ m) else none

abbrev pub change : Entries → ℕ → ℕ → Flag → Option Entries
change m k v f = modify m k v f (find m k)

length-put : (m : Entries) (k v : ℕ) → length (put m k v) ≡ length m
length-put [] k v = refl
length-put ((i, w) ∷ m) k v = ground (arith, length-put m k v)

find-put :
    (m : Entries) (k v j : ℕ) {w : ℕ}
    → find m k ≡ some w
    → find (put m k v) j ≡ (if k == j then some v else find m j)
find-put [] k v j h = ground arith
find-put ((i, u) ∷ m) k v j {w} h = ground (arith, find-put m k v j {w = w})

pub modify-stored :
    (m : Entries) (k v : ℕ) (f : Flag) (j : ℕ) {m' : Entries} (found : Option ℕ)
    → find m k ≡ found
    → modify m k v f found ≡ some m'
    → find m' j ≡ (if k == j then some v else find m j)
modify-stored m k v bpf_exist j none e h = ground arith
modify-stored m k v bpf_exist j (some w) e h = ground (arith, find-put m k v j e)
modify-stored m k v bpf_noexist j (some w) e h = ground arith
modify-stored m k v bpf_noexist j none e h = ground arith

pub change-exist_present :
    (m : Entries) (k v : ℕ) {w : ℕ}
    → find m k ≡ some w
    → (m' : Entries) × (change m k v bpf_exist ≡ some m') × (length m' ≡ length m)
change-exist_present m k v h = (put m k v, rw h, length-put m k v)

pub change-noexist_room :
    (m : Entries) (k v : ℕ)
    → find m k ≡ none
    → length m < max_entries
    → (m' : Entries) × (change m k v bpf_noexist ≡ some m') × (length m' ≡ length m + 1)
change-noexist_room m k v h room = ((k, v) ∷ m, rw h (ground arith), omega arith)

pub change-noexist_full :
    (m : Entries) (k v : ℕ)
    → find m k ≡ none
    → max_entries ≤ length m
    → change m k v bpf_noexist ≡ none
change-noexist_full m k v h full = rw h (ground arith)

abbrev pub table : BpfMap
table = record {
  Map = Entries;
  lookup = find;
  update = change;
  size = length;
  stored = λ m k v f j h. modify-stored m k v f j (find m k) refl h;
  exist_present = change-exist_present;
  exist_absent = λ m k v h. rw h;
  noexist_present = λ m k v h. rw h;
  noexist_room = change-noexist_room;
  noexist_full = change-noexist_full;
}
