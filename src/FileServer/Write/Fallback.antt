-- ===== src/FileServer/Write/Fallback.antt =====
-- `pwritev_fallback_read`, the reader that takes over when lsquic_stream_pwritev writes nothing.
use equic.Prelude.{
  ℕ, ◌-◌, ◌^◌, ◌≤◌, ◌<◌, ◌≡◌, ◌⊎◌, inl, inr, ap, ◌∙◌, arith, Option, none, some, Bytes, length,
  take, drop, length-drop, take_full, le_or_gt, ltb, if◌then◌else◌,
}
use equic.Net.{◌>>=◌}
use equic.FileServer.Reader.{Reader}
use equic.FileServer.Reader.Capped.{sub_size_t}
use equic.FileServer.Types.{Options, System, StreamCtx}
use equic.FileServer.Write.{pwritev_fallback_read}

-- What a read of `len` bytes gives to a buffer of `count`.
abbrev held : ℕ → Option Bytes → Option Bytes
held count read = do bytes ← read; if ltb count (length bytes) then none else some bytes

held_over : (count : ℕ) (bytes : Bytes) → count < length bytes → held count (some bytes) ≡ none
held_over count bytes h = ground arith

held_all : (count : ℕ) (bytes : Bytes) → length bytes ≤ count → held count (some bytes) ≡ some bytes
held_all count bytes h = ground arith

module _ (r : Reader) (o : Options) (system : System (Reader.Ctx r))
    (st_h : StreamCtx (Reader.Ctx r)) (content : Bytes) (whole : st_h.file_size ≡ length content)
    (fits : length content < 2 ^ 64) (begun : st_h.written ≤ length content)
    (reads : (len offset : ℕ)
      → system.preadv st_h.file_fd len offset ≡ some (take len (drop offset content))) where
  left : sub_size_t st_h.file_size st_h.written ≡ length content - st_h.written
  left = omega (arith, whole)

  asked : ℕ → ℕ
  asked count =
      if ltb count (length content - st_h.written) then length content - st_h.written else count

  asked-all : (count : ℕ) → length (drop st_h.written content) ≤ asked count
  unfolding asked
  asked-all count = ground (arith, length-drop st_h.written content)

  -- It asks for what is left of the file, or for more.
  pwritev_fallback_read-held :
      (count : ℕ)
      → pwritev_fallback_read r o system st_h count ≡ held count (some (drop st_h.written content))
  unfolding pwritev_fallback_read asked
  pwritev_fallback_read-held count =
      ap
        (λ ntoread.
          held count (
            system.preadv st_h.file_fd (if ltb count ntoread then ntoread else count) st_h.written))
        left
      ∙ ap (held count) (reads (asked count) st_h.written)
      ∙ ap (λ bytes. held count (some bytes))
          (take_full (asked count) (drop st_h.written content) (asked-all count))

  -- For an open file of fewer than 2 ^ 64 bytes, which `preadv` reads: a read for a buffer gives all that
  -- is left of the file, if that fits the buffer; if it does not, the bytes overrun the buffer.
  pub pwritev_fallback_read_lem :
      (count : ℕ)
      → ((length content - st_h.written ≤ count)
          × (pwritev_fallback_read r o system st_h count ≡ some (drop st_h.written content)))
        ⊎ ((count < length content - st_h.written)
            × (pwritev_fallback_read r o system st_h count ≡ none))
  pwritev_fallback_read_lem count = elim (le_or_gt (length content - st_h.written) count) [
    | inl le ↦ inl (
      le,
      pwritev_fallback_read-held count
          ∙ held_all count (drop st_h.written content)
              (omega (arith, length-drop st_h.written content)),
    )
    | inr gt ↦ inr (
      gt,
      pwritev_fallback_read-held count
          ∙ held_over count (drop st_h.written content)
              (omega (arith, length-drop st_h.written content)),
    )
  ]
