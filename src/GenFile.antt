-- ===== src/GenFile.antt =====
-- http_server.c, the generated file of the interop mode: `struct gen_file_ctx`, `idle_read`,
-- `idle_size` and `my_interop_preadv`. The repeated text, `on_being_idle`, is a parameter.
pub mod Cyclic
pub mod Read
pub mod Stuck
pub mod Size
mod Tests
use equic.Prelude.{
  ℕ, zero, suc, ◌+◌, ◌-◌, ◌%◌, ◌^◌, min, ◌&&◌, true, false, Option, none, some, List, [], ◌∷◌, ◌++◌,
  Bytes, length, take, drop, ltb, ◌==◌, if◌then◌else◌,
}
use equic.Net.{◌>>=◌}

-- `struct gen_file_ctx`
pub record GenFile : Type 0 where
  pub push_paths : List Bytes
  pub remain : ℕ
  pub idle_off : ℕ

module _ (on_being_idle : Bytes) where
  -- IDLE_SIZE
  abbrev pub idle_size : ℕ
  idle_size = length on_being_idle

  -- `towrite` for `left` bytes of the buffer; the cast to `unsigned` keeps 32 bits of `left`.
  abbrev pub to_write : ℕ → GenFile → ℕ
  to_write left gfc =
      let towrite = min (left % 2 ^ 32) (idle_size - gfc.idle_off) in
      if ltb gfc.remain towrite then gfc.remain else towrite

  -- The new `idle_off`.
  abbrev pub moved : ℕ → ℕ → ℕ
  moved off n = let off' = (off + n) % 2 ^ 32 in if off' == idle_size then 0 else off'

  -- The state after a round that writes `n` bytes.
  abbrev pub advanced : GenFile → ℕ → GenFile
  advanced gfc n = record gfc { idle_off = moved gfc.idle_off n; remain = gfc.remain - n }

  -- The `while` loop, with `left` for `end - p`: the bytes written, and the state. `none` is a loop
  -- that has not ended when the fuel is used up.
  unfoldable pub idle_loop : ℕ → ℕ → GenFile → Option (Bytes × GenFile)
  idle_loop zero left gfc = none
  idle_loop (suc fuel) left gfc =
      let n = to_write left gfc in
      let rest = idle_loop fuel (left - n) (advanced gfc n) in
      if ltb 0 left && ltb 0 gfc.remain
      then (do (bytes, gfc') ← rest; some (take n (drop gfc.idle_off on_being_idle) ++ bytes, gfc'))
      else some ([], gfc)

  -- Each round writes a byte at least, so `count` rounds and the last test are enough.
  abbrev pub idle_read : GenFile → ℕ → Option (Bytes × GenFile)
  idle_read gfc count = idle_loop (suc count) count gfc

  -- The buffers of the `iovec` are filled in turn; the result is their bytes, whose number is
  -- `nread`.
  unfoldable pub my_interop_preadv : GenFile → List ℕ → Option (Bytes × GenFile)
  my_interop_preadv gfc [] = some ([], gfc)
  my_interop_preadv gfc (iov_len ∷ iov) = do
    (bytes, gfc') ← idle_read gfc iov_len
    (more, gfc'') ← my_interop_preadv gfc' iov
    some (bytes ++ more, gfc'')
