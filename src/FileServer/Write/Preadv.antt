-- ===== src/FileServer/Write/Preadv.antt =====
-- The sending of a whole file with `preadv` and `lsquic_stream_pwritev`.
use mathlib.Core.Path.{subst}
use equic.Prelude.{
  ℕ, zero, suc, ◌+◌, ◌-◌, ◌%◌, ◌^◌, ◌≤◌, ◌<◌, ◌≡◌, ◌⊎◌, inl, inr, refl, ap, ◌∙◌, arith, true, false,
  Option, some, List, [], ◌∷◌, ◌++◌, Bytes, codes, length, take, drop, take-take, take_add,
  take_full, sub_add, sub_none, min, if◌then◌else◌,
}
use equic.Lsquic.{Call, shutdown, want_read, want_write, write, pwritev, returns}
use equic.Lsquic.Peer.{Sent, nothing, nw_of, followed}
use equic.FileServer.Reader.{Reader}
use equic.FileServer.Reader.Capped.{sub_size_t}
use equic.FileServer.ContentType.{select_content_type}
use equic.FileServer.Types.{Pwritev, off, at_most, unlimited, Options, System, StreamCtx, Input}
use equic.FileServer.Write.Parts.{settled-some, write_left-some, after_write-some, on_write-headers}
use equic.FileServer.Write.{
  bytes_left_of, bytes_left, headers_of, settled, after_write, or_empty, to_write, write_pwritev,
  write_file, write_left, http_server_on_write,
}

none_left : (n : ℕ) → n - n ≡ 0
none_left n = omega arith

abbrev pub IsOn : Pwritev → Type 0
IsOn off = ⊥
IsOn _ = Unit

-- Each write takes some bytes, one at least, of those that it asks for and that are left; one more
-- call follows the last of them.
abbrev pub TakeParts : List Input → ℕ → Type 0
TakeParts [] left = ⊥
TakeParts (input ∷ inputs) left =
    (left ≡ 0)
    ⊎ ((input.pwritev_nw ≡ some (nw_of input.pwritev_nw))
        × (0 < nw_of input.pwritev_nw)
        × (nw_of input.pwritev_nw ≤ left)
        × (nw_of input.pwritev_nw ≤ input.iov)
        × TakeParts inputs (left - nw_of input.pwritev_nw))

module _ (r : Reader) (o : Options) (p : Pwritev) (on : IsOn p)
    (system : System (Reader.Ctx r)) where
  open r use {Ctx}

  abbrev pub with_preadv : Options
  with_preadv = record o { s_pwritev = p; delay_resp_sec = 0 }

  pub run : StreamCtx Ctx → List Input → Sent → Option Sent
  unfolding http_server_on_write followed
  run st_h [] s = some s
  run st_h (input ∷ inputs) s =
      followed true (nw_of input.pwritev_nw) (http_server_on_write r with_preadv system st_h input)
        (λ st_h' s'. run st_h' inputs s') s

  -- A stream whose headers were sent, with a file open and a number of its bytes written.
  abbrev pub at : StreamCtx Ctx → ℕ → StreamCtx Ctx
  at st_h w = record st_h { headers_sent = true; written = w }

  bytes_left-on :
      (q : Pwritev) (st_h : StreamCtx Ctx) (reader : Option Ctx)
      → IsOn q
      → bytes_left_of r with_preadv system q st_h reader
        ≡ some (sub_size_t st_h.file_size st_h.written)
  unfolding bytes_left_of
  bytes_left-on off st_h reader h = absurd h
  bytes_left-on (at_most n) st_h reader h = refl
  bytes_left-on unlimited st_h reader h = refl

  write_file-on :
      (q : Pwritev) (st_h : StreamCtx Ctx) (input : Input) (left n : ℕ)
      → IsOn q
      → 0 < n
      → input.pwritev_nw ≡ some n
      → write_file r with_preadv system q st_h input left
        ≡ some (
          st_h,
          some n,
          pwritev (to_write r with_preadv system p left)
              ∷ write (
                  or_empty r with_preadv system (system.preadv st_h.file_fd input.iov st_h.written))
              ∷ [],
        )
  unfolding write_file write_pwritev
  write_file-on off st_h input left n h l e = absurd h
  write_file-on (at_most k) st_h input left zero h l e = absurd (omega arith)
  write_file-on unlimited st_h input left zero h l e = absurd (omega arith)
  write_file-on (at_most k) st_h input left (suc n) h l e =
      ap (λ nw. write_pwritev r with_preadv system st_h input left nw) e
  write_file-on unlimited st_h input left (suc n) h l e =
      ap (λ nw. write_pwritev r with_preadv system st_h input left nw) e

  -- A file of fewer than 2 ^ 64 bytes, which `preadv` reads.
  module _ (st_h : StreamCtx Ctx) (content : Bytes) (whole : st_h.file_size ≡ length content)
      (fits : length content < 2 ^ 64)
      (reads : (len offset : ℕ)
        → system.preadv st_h.file_fd len offset ≡ some (take len (drop offset content))) where
    left_at_lem : (w : ℕ) → w ≤ length content → sub_size_t st_h.file_size w ≡ length content - w
    left_at_lem w h = omega (arith, whole)

    added : (w n : ℕ) → w < length content → n ≤ length content - w → (w + n) % 2 ^ 64 ≡ w + n
    added w n h m = omega arith

    abbrev calls_of : ℕ → Bytes → List Call
    calls_of w bytes =
        pwritev (to_write r with_preadv system p (length content - w)) ∷ write bytes ∷ []

    on_write-part :
        (input : Input) (w n : ℕ)
        → w < length content
        → 0 < n
        → n ≤ length content - w
        → input.pwritev_nw ≡ some n
        → http_server_on_write r with_preadv system (at st_h w) input
          ≡ returns (at st_h (w + n)) (
              pwritev (to_write r with_preadv system p (length content - w))
              ∷ write (take input.iov (drop w content))
              ∷ want_write true
              ∷ [])
    unfolding http_server_on_write bytes_left or_empty
    on_write-part input w n h l m e =
        ap (λ left. write_left r with_preadv system (at st_h w) input left)
          (bytes_left-on p (at st_h w) st_h.reader on ∙ ap some (left_at_lem w (omega arith)))
        ∙ write_left-some r with_preadv system (at st_h w) input (length content - w) (omega arith)
        ∙ ap (after_write r with_preadv system input.goaway)
            (write_file-on p (at st_h w) input (length content - w) n on l e)
        ∙ ap
            (λ found.
              after_write r with_preadv system input.goaway
                (some (at st_h w, some n, calls_of w (or_empty r with_preadv system found))))
            (reads input.iov w)
        ∙ after_write-some r with_preadv system input.goaway (at st_h w) n
            (calls_of w (take input.iov (drop w content)))
        ∙ ap
            (settled r with_preadv system (at st_h w) (some n)
              (calls_of w (take input.iov (drop w content))))
            (bytes_left-on p (at st_h w) st_h.reader on ∙ ap some (left_at_lem w (omega arith)))
        ∙ settled-some r with_preadv system (at st_h w) (some n)
            (calls_of w (take input.iov (drop w content))) (length content - w) (omega arith)
        ∙ ap
            (λ k.
              returns (at st_h k)
                (calls_of w (take input.iov (drop w content)) ++ (want_write true ∷ [])))
            (added w n h m)

    on_write-end :
        (input : Input) (w : ℕ)
        → w ≤ length content
        → length content - w ≡ 0
        → http_server_on_write r with_preadv system (at st_h w) input
          ≡ returns (at st_h w) (shutdown 1 ∷ want_read true ∷ [])
    unfolding http_server_on_write bytes_left write_left
    on_write-end input w h e =
        ap (λ left. write_left r with_preadv system (at st_h w) input left)
          (bytes_left-on p (at st_h w) st_h.reader on ∙ ap some (left_at_lem w h ∙ e))

    -- The bytes sent after a part.
    joined :
        (s : Sent) (w n iov : ℕ)
        → s.bytes ≡ take w content
        → n ≤ iov
        → s.bytes ++ take n (take iov (drop w content)) ≡ take (w + n) content
    joined s w n iov b h =
        let least : min n iov ≡ n = omega arith in
        rw (b, take-take n iov (drop w content), least, take_add w n content) refl

    run-part :
        (inputs : List Input) (w : ℕ) (s : Sent)
        → w ≤ length content
        → s.bytes ≡ take w content
        → s.closed ≡ false
        → TakeParts inputs (length content - w)
        → run (at st_h w) inputs s ≡ some (record s { bytes = content; closed = true })
    unfolding run followed
    run-part [] w s h b c t = absurd t
    run-part (input ∷ inputs) w s h b c (inl done) =
        ap
          (λ outcome.
            followed true (nw_of input.pwritev_nw) outcome (λ st_h' s'. run st_h' inputs s') s)
          (on_write-end input w h done)
        ∙ ap (λ bytes. some (record s { bytes = bytes; closed = true }))
            (b ∙ take_full w content (omega arith))
    run-part (input ∷ inputs) w s h b c (inr (e, l, m, i, t)) =
        let n = nw_of input.pwritev_nw in
        ap (λ outcome. followed true n outcome (λ st_h' s'. run st_h' inputs s') s)
          (on_write-part input w n (omega arith) l m e)
        ∙ ap
            (λ closed.
              if closed
              then some (record s { bytes = s.bytes ++ take n (take input.iov (drop w content)) })
              else run (at st_h (w + n)) inputs
                  (record s { bytes = s.bytes ++ take n (take input.iov (drop w content)) }))
            c
        ∙ run-part inputs (w + n)
            (record s { bytes = s.bytes ++ take n (take input.iov (drop w content)) }) (omega arith)
            (joined s w n input.iov b i) c
            (subst (λ k. TakeParts inputs k) (sub_add (length content) w n) t)

    -- For every stream with an open file of fewer than 2 ^ 64 bytes, of which none are written, and whose
    -- headers were not sent, with `s_pwritev` set and no delay: if `preadv` reads what the file has, and
    -- each lsquic_stream_pwritev takes some bytes, one at least, until all are taken, and the handler
    -- is called once more, then the peer gets one header block and the bytes of the file, all of them
    -- and in order, and the writing side is shut down.
    pub run-preadv :
        (name : Bytes) (first : Input) (inputs : List Input)
        → st_h.req_filename ≡ some name
        → st_h.headers_sent ≡ false
        → st_h.written ≡ 0
        → first.headers_ok ≡ true
        → TakeParts inputs (length content)
        → run st_h (first ∷ inputs) nothing
          ≡ some (record {
            heads =
                ((codes ":status", codes "200")
                  ∷ (codes "content-type", select_content_type name)
                  ∷ [])
                ∷ [];
            bytes = content;
            closed = true;
          })
    unfolding run followed headers_of
    run-preadv name first inputs f h z ok t =
        let sent = record nothing { heads = headers_of r o system name ∷ [] } in
        ap
          (λ outcome.
            followed true (nw_of first.pwritev_nw) outcome (λ st_h' s'. run st_h' inputs s')
              nothing)
          (on_write-headers r with_preadv system st_h first name h f ok)
        ∙ ap (λ w. run (at st_h w) inputs sent) z
        ∙ run-part inputs 0 sent (omega arith) refl refl
            (subst (λ k. TakeParts inputs k) (sub_none (length content) 0 refl) t)
