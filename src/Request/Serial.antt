-- ===== src/Request/Serial.antt =====
-- `qif_str`: the headers as text.
use mathlib.Core.List.{append_assoc, append-nil}
use equic.Prelude.{
  ◌+◌, ◌≡◌, sym, ap, ◌∙◌, arith, true, List, [], ◌∷◌, ◌++◌, Bytes, length, length-append,
}
use equic.Request.{Req, Header, bytes_of, line, interop_server_hset_add_header, add_all}

-- The text of a list of headers.
abbrev pub text : List Header → Bytes
text [] = []
text (header ∷ rest) = line header ++ text rest

length-line : (header : Header) → length (line header) ≡ length header.0 + length header.1 + 2
length-line (name, value) =
    omega (
      arith,
      length-append name (b'\t' ∷ (value ++ (b'\n' ∷ []))),
      length-append value (b'\n' ∷ []),
    )

qif-add_header :
    (req : Req) (header : Header)
    → let req' = (interop_server_hset_add_header req header true true).0 in
      (bytes_of req'.qif_str ≡ bytes_of req.qif_str ++ line header)
      × (req'.qif_sz ≡ req.qif_sz + length header.0 + length header.1 + 2)
unfolding interop_server_hset_add_header
qif-add_header req header = ground arith

-- With every allocation successful, `qif_str` holds the text of all headers in order, those that
-- were rejected included, and `qif_sz` grows by its length.
pub qif-add_all :
    (req : Req) (headers : List Header)
    → (bytes_of (add_all req headers).qif_str ≡ bytes_of req.qif_str ++ text headers)
      × ((add_all req headers).qif_sz ≡ req.qif_sz + length (text headers))
unfolding add_all
qif-add_all req [] = (sym (append-nil (bytes_of req.qif_str)), omega arith)
qif-add_all req (header ∷ rest) =
    let (str, sz) = qif-add_header req header in
    let (strs, szs) = qif-add_all (interop_server_hset_add_header req header true true).0 rest in
    (
      strs
          ∙ ap (λ t. t ++ text rest) str
          ∙ append_assoc (bytes_of req.qif_str) (line header) (text rest),
      omega (arith, length-append (line header) (text rest), length-line header),
    )
