-- ===== src/FileServer/Reader/Capped.antt =====
-- http_server.c, `struct capped_reader_ctx`: a reader that passes on no more bytes of another one than
-- `s_immediate_write`. It is a reader itself. `limit` is `s_immediate_write` as a `size_t`.

mod Tests
use equic.Prelude.{
  ℕ, ◌+◌, ◌-◌, ◌%◌, ◌^◌, ◌≤◌, ◌<◌, ◌≡◌, min, refl, ap, sym, ◌∙◌, arith, Bytes, length, take, drop,
  length-take, take-take, drop-take, take-min-drop-min, take-append-drop, sub_none, List, [], ◌∷◌,
  ◌++◌,
}
use mathlib.Core.List.{append_assoc}
use equic.FileServer.Reader.{Reader, total, reads, reads-content, reads-IsValid}

-- `a - b` of type `size_t`
abbrev pub sub_size_t : ℕ → ℕ → ℕ
sub_size_t a b = (a + 2 ^ 64 - b) % 2 ^ 64

module _ (inner_reader : Reader) where
  open inner_reader use {
    Ctx, IsValid, lsqr_size, lsqr_read, content, lsqr_size-content, lsqr_read-content,
    content-lsqr_read, lsqr_read-IsValid,
  }

  pub record CappedReaderCtx : Type 0 where
    pub inner : Ctx
    pub nread : ℕ

  module _ (limit : ℕ) where
    pub capped_reader_size : CappedReaderCtx → ℕ
    capped_reader_size c = min (sub_size_t limit c.nread) (lsqr_size c.inner)

    pub capped_reader_read : CappedReaderCtx → ℕ → Bytes × CappedReaderCtx
    capped_reader_read c count =
        let (bytes, inner') = lsqr_read c.inner (min count (sub_size_t limit c.nread)) in
        (bytes, record { inner = inner'; nread = c.nread + length bytes })

    abbrev pub IsCapped : CappedReaderCtx → Type 0
    IsCapped c = IsValid c.inner × (c.nread ≤ limit)

    -- What is left of the other reader, up to the bytes that may still pass.
    abbrev pub capped_content : CappedReaderCtx → Bytes
    capped_content c = take (limit - c.nread) (content c.inner)

  module _ (limit : ℕ) (fits : limit < 2 ^ 64) where
    sub_size_t_lem : (nread : ℕ) → nread ≤ limit → sub_size_t limit nread ≡ limit - nread
    sub_size_t_lem nread h = omega arith

    pub capped_reader_size-length :
        (c : CappedReaderCtx)
        → IsCapped limit c
        → capped_reader_size limit c ≡ length (capped_content limit c)
    unfolding capped_reader_size
    capped_reader_size-length c (v, h) =
        rw
          (
            sub_size_t_lem c.nread h,
            lsqr_size-content c.inner v,
            length-take (limit - c.nread) (content c.inner),
          )
          refl

    -- The bytes that a read passes on.
    abbrev passed : CappedReaderCtx → ℕ → Bytes
    passed c count = take (min count (limit - c.nread)) (content c.inner)

    capped_reader_read-passed :
        (c : CappedReaderCtx) (count : ℕ)
        → IsCapped limit c
        → (capped_reader_read limit c count).0 ≡ passed c count
    unfolding capped_reader_read
    capped_reader_read-passed c count (v, h) =
        rw (sub_size_t_lem c.nread h, lsqr_read-content c.inner (min count (limit - c.nread)) v)
          refl

    pub capped_reader_read-content :
        (c : CappedReaderCtx) (count : ℕ)
        → IsCapped limit c
        → (capped_reader_read limit c count).0 ≡ take count (capped_content limit c)
    capped_reader_read-content c count h =
        capped_reader_read-passed c count h
        ∙ sym (take-take count (limit - c.nread) (content c.inner))

    capped_reader_read-nread :
        (c : CappedReaderCtx) (count : ℕ)
        → IsCapped limit c
        → (capped_reader_read limit c count).1.nread ≡ c.nread + length (passed c count)
    unfolding capped_reader_read
    capped_reader_read-nread c count (v, h) =
        ap (λ (bytes : Bytes). c.nread + length bytes) (capped_reader_read-passed c count (v, h))

    capped_reader_read-inner :
        (c : CappedReaderCtx) (count : ℕ)
        → IsCapped limit c
        → content (capped_reader_read limit c count).1.inner
          ≡ drop (min count (limit - c.nread)) (content c.inner)
    unfolding capped_reader_read
    capped_reader_read-inner c count (v, h) =
        rw (sub_size_t_lem c.nread h) (content-lsqr_read c.inner (min count (limit - c.nread)) v)

    valid :
        (c : CappedReaderCtx) (count : ℕ)
        → IsValid c.inner
        → IsValid (capped_reader_read limit c count).1.inner
    unfolding capped_reader_read
    valid c count v = lsqr_read-IsValid c.inner (min count (sub_size_t limit c.nread)) v

    pub capped_reader_read-IsCapped :
        (c : CappedReaderCtx) (count : ℕ)
        → IsCapped limit c
        → IsCapped limit (capped_reader_read limit c count).1
    capped_reader_read-IsCapped c count (v, h) = (
      valid c count v,
      omega (
        arith,
        capped_reader_read-nread c count (v, h),
        length-take (min count (limit - c.nread)) (content c.inner),
      ),
    )

    pub content-capped_reader_read :
        (c : CappedReaderCtx) (count : ℕ)
        → IsCapped limit c
        → capped_content limit (capped_reader_read limit c count).1
          ≡ drop count (capped_content limit c)
    content-capped_reader_read c count h =
        let k = min count (limit - c.nread) in
        let left : limit - (capped_reader_read limit c count).1.nread
            ≡ limit - c.nread - min k (length (content c.inner)) =
          omega (arith, capped_reader_read-nread c count h, length-take k (content c.inner)) in
        rw (left, capped_reader_read-inner c count h)
          (take-min-drop-min (limit - c.nread) count (content c.inner))

    -- The capped reader keeps the promises of a reader.
    abbrev pub capped_reader : Reader
    capped_reader = record {
      Ctx = CappedReaderCtx;
      IsValid = IsCapped limit;
      lsqr_size = capped_reader_size limit;
      lsqr_read = capped_reader_read limit;
      content = capped_content limit;
      lsqr_size-content = capped_reader_size-length;
      lsqr_read-content = capped_reader_read-content;
      content-lsqr_read = content-capped_reader_read;
      lsqr_read-IsValid = capped_reader_read-IsCapped;
    }

    -- A new context.
    abbrev pub fresh : Ctx → CappedReaderCtx
    fresh c = record { inner = c; nread = 0 }

    capped_reader_read_split :
        (c : CappedReaderCtx) (count : ℕ)
        → IsCapped limit c
        → (capped_reader_read limit c count).0 ++ content (capped_reader_read limit c count).1.inner
          ≡ content c.inner
    capped_reader_read_split c count h =
        rw (capped_reader_read-passed c count h, capped_reader_read-inner c count h)
          (take-append-drop (min count (limit - c.nread)) (content c.inner))

    reads_split :
        (counts : List ℕ) (c : CappedReaderCtx)
        → IsCapped limit c
        → (reads capped_reader c counts).0 ++ content (reads capped_reader c counts).1.inner
          ≡ content c.inner
    unfolding reads
    reads_split [] c h = refl
    reads_split (count ∷ counts) c h =
        let next = (capped_reader_read limit c count).1 in
        append_assoc (capped_reader_read limit c count).0 (reads capped_reader next counts).0
          (content (reads capped_reader next counts).1.inner)
        ∙ ap (λ bytes. (capped_reader_read limit c count).0 ++ bytes)
            (reads_split counts next (capped_reader_read-IsCapped c count h))
        ∙ capped_reader_read_split c count h

    -- For every reader that keeps its promises, and a limit that fits a `size_t`: reading through a new
    -- capped reader for buffers of any sizes gives the first bytes of the other reader, as many as fit
    -- the buffers and the limit; the context of the other reader stays valid, and the bytes that were
    -- read and those that it has left are together those that it had.
    pub reads-capped_reader :
        (c : Ctx) (counts : List ℕ)
        → IsValid c
        → ((reads capped_reader (fresh c) counts).0 ≡ take (min (total counts) limit) (content c))
          × IsValid (reads capped_reader (fresh c) counts).1.inner
          × ((reads capped_reader (fresh c) counts).0
                ++ content (reads capped_reader (fresh c) counts).1.inner
              ≡ content c)
    reads-capped_reader c counts v = (
      reads-content capped_reader (fresh c) counts (v, omega arith)
          ∙ take-take (total counts) (limit - 0) (content c)
          ∙ ap (λ k. take (min (total counts) k) (content c)) (sym (sub_none limit 0 refl)),
      (reads-IsValid capped_reader (fresh c) counts (v, omega arith)).0,
      reads_split counts (fresh c) (v, omega arith),
    )
