-- ===== src/FileServer/Reader.antt =====
-- `struct lsquic_reader`, through which lsquic takes the bytes to send: an interface. The reader of a
-- file is test_reader_size and test_reader_read of lsquic's test_common.c, which http_server.c only
-- uses; it promises what the laws say. The bytes that a reader has left are its abstract state.
pub mod Capped
use equic.Prelude.{
  ℕ, zero, suc, ◌+◌, ◌-◌, ◌≡◌, refl, ap, sym, ◌∙◌, arith, List, [], ◌∷◌, ◌++◌, Bytes, length, take,
  drop, take_add, drop_add,
}

pub record Reader : Type 1 where
  -- `lsqr_ctx`, and when it is in a state that the operations allow.
  pub Ctx : Type 0
  pub IsValid : Ctx → Type 0
  pub lsqr_size : Ctx → ℕ
  pub lsqr_read : Ctx → ℕ → Bytes × Ctx
  -- What is left to read.
  pub content : Ctx → Bytes
  pub lsqr_size-content : (c : Ctx) → IsValid c → lsqr_size c ≡ length (content c)
  pub lsqr_read-content :
      (c : Ctx) (count : ℕ) → IsValid c → (lsqr_read c count).0 ≡ take count (content c)
  pub content-lsqr_read :
      (c : Ctx) (count : ℕ) → IsValid c → content (lsqr_read c count).1 ≡ drop count (content c)
  pub lsqr_read-IsValid : (c : Ctx) (count : ℕ) → IsValid c → IsValid (lsqr_read c count).1

abbrev pub total : List ℕ → ℕ
total [] = 0
total (count ∷ counts) = count + total counts

module _ (r : Reader) where
  open r use {
    Ctx, IsValid, lsqr_read, content, lsqr_read-content, content-lsqr_read, lsqr_read-IsValid,
  }

  -- lsquic_stream_writef reads for buffers of some sizes, in turn.
  unfoldable pub reads : Ctx → List ℕ → Bytes × Ctx
  reads c [] = ([], c)
  reads c (count ∷ counts) =
      let (bytes, c') = lsqr_read c count in
      let (more, c'') = reads c' counts in (bytes ++ more, c'')

  pub reads-content :
      (c : Ctx) (counts : List ℕ) → IsValid c → (reads c counts).0 ≡ take (total counts) (content c)
  unfolding reads
  reads-content c [] v = refl
  reads-content c (count ∷ counts) v =
      rw
        (
          lsqr_read-content c count v,
          reads-content (lsqr_read c count).1 counts (lsqr_read-IsValid c count v),
          content-lsqr_read c count v,
          take_add count (total counts) (content c),
        )
        refl

  pub content-reads :
      (c : Ctx) (counts : List ℕ)
      → IsValid c
      → content (reads c counts).1 ≡ drop (total counts) (content c)
  unfolding reads
  content-reads c [] v = refl
  content-reads c (count ∷ counts) v =
      rw
        (
          content-reads (lsqr_read c count).1 counts (lsqr_read-IsValid c count v),
          content-lsqr_read c count v,
          drop_add count (total counts) (content c),
        )
        refl

  pub reads-IsValid : (c : Ctx) (counts : List ℕ) → IsValid c → IsValid (reads c counts).1
  unfolding reads
  reads-IsValid c [] v = v
  reads-IsValid c (count ∷ counts) v =
      reads-IsValid (lsqr_read c count).1 counts (lsqr_read-IsValid c count v)
