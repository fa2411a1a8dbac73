-- ===== src/Request/Decode.antt =====
-- The parts of `decode_buf` that headers are decoded into.
use equic.Prelude.{
  ℕ, ◌+◌, ◌-◌, ◌<◌, ◌≡◌, refl, arith, true, false, Option, none, some, List, [], ◌∷◌, leb,
  if◌then◌else◌, Bool-cases, inl, inr,
}
use equic.Request.{Req, interop_server_hset_prepare_decode}

module _ (size_of_decode_buf : ℕ) where
  -- Headers prepared in turn, each behind one of the size given: the set, and the parts handed out.
  pub prepare_all : Req → List ℕ → Req × List (Option (ℕ × ℕ))
  prepare_all req [] = (req, [])
  prepare_all req (dec_size ∷ rest) =
      let (req', part) = interop_server_hset_prepare_decode size_of_decode_buf req false dec_size in
      let (req'', parts) = prepare_all req' rest in (req'', part ∷ parts)

  -- Each part begins behind the header decoded before it, whose sizes are the list.
  abbrev pub AreParts : ℕ → List ℕ → List (Option (ℕ × ℕ)) → Type 0
  AreParts off (dec_size ∷ sizes) (none ∷ rest) = AreParts off sizes rest
  AreParts off (dec_size ∷ sizes) (some (at, len) ∷ rest) =
      (at ≡ off + dec_size) × (0 < len) × (at + len ≡ size_of_decode_buf) × AreParts at sizes rest
  AreParts off _ _ = Unit

  -- The call: a part behind the header before it, or none and nothing changed, exactly if that
  -- leaves no room.
  prepare_decode-step :
      (req : Req) (dec_size : ℕ)
      → req.have_xhdr ≡ true
      → interop_server_hset_prepare_decode size_of_decode_buf req false dec_size ≡ (
          if leb size_of_decode_buf (req.decode_off + dec_size) then (req, none) else (
            record req { decode_off = req.decode_off + dec_size },
            some (req.decode_off + dec_size, size_of_decode_buf - (req.decode_off + dec_size)),
          ))
  unfolding interop_server_hset_prepare_decode
  prepare_decode-step req dec_size h = ground arith

  -- On a header set whose decoding has begun, with its offset inside the buffer, the parts handed out
  -- for any further headers lie in the buffer, are not empty, and each begins where the header
  -- decoded before it ends; the offset stays inside the buffer.
  pub prepare_all-AreParts :
      (req : Req) (sizes : List ℕ)
      → req.have_xhdr ≡ true
      → req.decode_off < size_of_decode_buf
      → AreParts req.decode_off sizes (prepare_all req sizes).1
        × ((prepare_all req sizes).0.decode_off < size_of_decode_buf)
  unfolding prepare_all
  prepare_all-AreParts req [] begun h = (tt, h)
  prepare_all-AreParts req (dec_size ∷ sizes) begun h =
      elim (Bool-cases (leb size_of_decode_buf (req.decode_off + dec_size))) [
        | inl full ↦
            rw (prepare_decode-step req dec_size begun, full)
              (prepare_all-AreParts req sizes begun h)
        | inr room ↦
            let req' = record req { decode_off = req.decode_off + dec_size } in
            let (parts, inside) = prepare_all-AreParts req' sizes begun (ground arith) in
            rw (prepare_decode-step req dec_size begun, room)
              ((refl, ground arith, ground arith, parts), inside)
      ]
