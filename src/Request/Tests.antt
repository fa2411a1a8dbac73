-- ===== src/Request/Tests.antt =====
-- The headers of a request.
use equic.Prelude.{◌≡◌, ◌↔◌, ◌+◌, ◌<◌, refl, arith, true, List, [], ◌∷◌, codes, length}
use equic.Request.{
  Req, Header, accepted, get, bytes_of, interop_server_hset_create, interop_server_hset_add_header,
  add_all, end_headers, strndup, method_of,
}
use equic.Request.Decode.{prepare_all, AreParts, prepare_all-AreParts}
use equic.Request.Serial.{text, qif-add_all}
use equic.Request.Pseudo.{mentions, end_headers-add_all}

abbrev headers : List Header
headers =
    (codes ":method", codes "GET")
    ∷ (codes ":path", codes "/1K")
    ∷ (codes ":authority", codes "a")
    ∷ (codes ":path", codes "/2K")
    ∷ []

parsed : (add_all interop_server_hset_create headers).method ≡ get
unfolding add_all interop_server_hset_add_header strndup method_of
parsed = refl

qif-add_all_example :
    (bytes_of (add_all interop_server_hset_create headers).qif_str ≡ text headers)
    × ((add_all interop_server_hset_create headers).qif_sz ≡ 0 + length (text headers))
qif-add_all_example = qif-add_all interop_server_hset_create headers

end_headers-add_all_example :
    (end_headers (add_all interop_server_hset_create headers) ≡ accepted) ↔ (
      (mentions (codes ":path") headers ≡ true)
      × (mentions (codes ":method") headers ≡ true)
      × (mentions (codes ":authority") headers ≡ true))
end_headers-add_all_example = end_headers-add_all headers

abbrev begun : Req
begun = record interop_server_hset_create { have_xhdr = true }

prepare_all-AreParts_example :
    AreParts 100 0 (40 ∷ 80 ∷ 30 ∷ []) (prepare_all 100 begun (40 ∷ 80 ∷ 30 ∷ [])).1
    × ((prepare_all 100 begun (40 ∷ 80 ∷ 30 ∷ [])).0.decode_off < 100)
prepare_all-AreParts_example = prepare_all-AreParts 100 begun (40 ∷ 80 ∷ 30 ∷ []) refl (omega arith)
