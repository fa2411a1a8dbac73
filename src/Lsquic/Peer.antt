-- ===== src/Lsquic/Peer.antt =====
-- What the peer of a stream gets from the calls of a writing handler.
use equic.Prelude.{
  ℕ, zero, suc, Bool, true, false, Option, none, some, List, [], ◌∷◌, ◌++◌, Bytes, take,
  if◌then◌else◌,
}
use equic.Lsquic.{Call, shutdown, write, send_headers, Outcome, returns, exits, faults}

-- Header blocks and bytes, and whether the writing side was shut down.
pub record Sent : Type 0 where
  pub heads : List (List (Bytes × Bytes))
  pub bytes : Bytes
  pub closed : Bool

abbrev pub nothing : Sent
nothing = record { heads = []; bytes = []; closed = false }

-- The calls of one handler, if lsquic takes a header block or not, and `n` bytes of what is written.
-- A shutdown of the reading side alone is nothing to the peer.
abbrev pub sent_by : Bool → ℕ → List Call → Sent → Sent
sent_by ok n [] s = s
sent_by ok n (send_headers headers ∷ calls) s =
    sent_by ok n calls (record s { heads = if ok then s.heads ++ (headers ∷ []) else s.heads })
sent_by ok n (write bytes ∷ calls) s =
    sent_by ok n calls (record s { bytes = s.bytes ++ take n bytes })
sent_by ok n (shutdown zero ∷ calls) s = sent_by ok n calls s
sent_by ok n (shutdown (suc how) ∷ calls) s = sent_by ok n calls (record s { closed = true })
sent_by ok n (call ∷ calls) s = sent_by ok n calls s

abbrev pub nw_of : Option ℕ → ℕ
nw_of none = 0
nw_of (some n) = n

-- The calls of one handler, and then, if the writing side is open, what follows.
unfoldable pub followed {ℓ} :
    {S : Type ℓ} → Bool → ℕ → Outcome S → (S → Sent → Option Sent) → Sent → Option Sent
followed ok n (returns st_h calls) next s =
    let s' = sent_by ok n calls s in let rest = next st_h s' in if s'.closed then some s' else rest
followed ok n (exits code) next s = none
followed ok n faults next s = none
