-- ===== src/Request/Pseudo.antt =====
-- The pseudo-headers of a request.
use equic.Prelude.{
  ◌≡◌, ◌↔◌, refl, ap, ◌∙◌, arith, Bool, true, false, ◌||◌, Option, none, some, List, [], ◌∷◌, Bytes,
  codes, same_bytes, same_bytes_iff, if◌then◌else◌,
}
use equic.Request.{
  Req, Header, accepted, Method, unset, strndup, method_of, interop_server_hset_create,
  interop_server_hset_add_header, add_all, end_headers,
}

-- Whether a header of that name is in a list.
abbrev pub mentions : Bytes → List Header → Bool
mentions name [] = false
mentions name (header ∷ rest) = same_bytes header.0 name || mentions name rest

-- The value of the first header of that name, and of the last.
abbrev pub first_value : Bytes → List Header → Option Bytes
first_value name [] = none
first_value name (header ∷ rest) =
    if same_bytes header.0 name then some (strndup header.1) else first_value name rest

abbrev pub last_value : Bytes → List Header → Option Bytes → Option Bytes
last_value name [] found = found
last_value name (header ∷ rest) found =
    last_value name rest (if same_bytes header.0 name then some (strndup header.1) else found)

abbrev is_some : Option Bytes → Bool
is_some none = false
is_some (some bytes) = true

abbrev is_set : Method → Bool
is_set unset = false
is_set _ = true

is_set-method_of : (text : Bytes) → is_set (method_of text) ≡ true
unfolding method_of
is_set-method_of text = ground arith

-- The flags say which fields are set.
record IsReq (req : Req) : Type 0 where
  path_flag : req.ph_path ≡ is_some req.path
  method_flag : req.ph_method ≡ is_set req.method

abbrev is_path : Header → Bool
is_path header = same_bytes header.0 (codes ":path")

abbrev is_method : Header → Bool
is_method header = same_bytes header.0 (codes ":method")

abbrev is_authority : Header → Bool
is_authority header = same_bytes header.0 (codes ":authority")

-- A header has one name.
names_differ :
    (name : Bytes) (a b : Bytes)
    → same_bytes a b ≡ false
    → same_bytes name a ≡ true
    → same_bytes name b ≡ false
names_differ name a b e h = rw ((same_bytes_iff name a).0 h) e

abbrev or_else : Option Bytes → Option Bytes → Option Bytes
or_else none other = other
or_else (some bytes) other = some bytes

module _ (req : Req) (header : Header) where
  abbrev added : Req
  added = (interop_server_hset_add_header req header true true).0

  abbrev one_name :
      (same_bytes header.0 (codes ":path") ≡ true → is_method header ≡ false)
      × (is_path header ≡ true → is_authority header ≡ false)
      × (is_method header ≡ true → is_authority header ≡ false)
  one_name = (
    names_differ header.0 (codes ":path") (codes ":method") refl,
    names_differ header.0 (codes ":path") (codes ":authority") refl,
    names_differ header.0 (codes ":method") (codes ":authority") refl,
  )

  added-path :
      added.path ≡ or_else req.path (if is_path header then some (strndup header.1) else none)
  unfolding interop_server_hset_add_header
  added-path = ground (arith, one_name.0, one_name.1)

  added-authority :
      added.authority_str
      ≡ (if is_authority header then some (strndup header.1) else req.authority_str)
  unfolding interop_server_hset_add_header
  added-authority = ground (arith, one_name.1, one_name.2)

  added-IsReq :
      IsReq req
      → IsReq added
        × (added.ph_path ≡ (req.ph_path || is_path header))
        × (added.ph_method ≡ (req.ph_method || is_method header))
        × (added.ph_authority ≡ (req.ph_authority || is_authority header))
  unfolding interop_server_hset_add_header
  added-IsReq h =
      ground (arith, one_name.0, one_name.1, one_name.2, is_set-method_of (strndup header.1))

flags-add_all :
    (req : Req) (headers : List Header)
    → IsReq req
    → let req' = add_all req headers in
      (req'.ph_path ≡ (req.ph_path || mentions (codes ":path") headers))
      × (req'.ph_method ≡ (req.ph_method || mentions (codes ":method") headers))
      × (req'.ph_authority ≡ (req.ph_authority || mentions (codes ":authority") headers))
unfolding add_all
flags-add_all req [] h = ground arith
flags-add_all req (header ∷ rest) h =
    let (h', p, m, a) = added-IsReq req header h in
    ground (arith, flags-add_all (added req header) rest h')

path-add_all :
    (req : Req) (headers : List Header)
    → (add_all req headers).path ≡ or_else req.path (first_value (codes ":path") headers)
unfolding add_all
path-add_all req [] = ground arith
path-add_all req (header ∷ rest) =
    ground (arith, added-path req header, path-add_all (added req header) rest)

authority-add_all :
    (req : Req) (headers : List Header)
    → (add_all req headers).authority_str
      ≡ last_value (codes ":authority") headers req.authority_str
unfolding add_all
authority-add_all req [] = refl
authority-add_all req (header ∷ rest) =
    authority-add_all (added req header) rest
    ∙ ap (last_value (codes ":authority") rest) (added-authority req header)

-- A new header set that was given headers, with every allocation successful, is accepted at their
-- end exactly if a `:path`, a `:method` and an `:authority` are among them.
pub end_headers-add_all :
    (headers : List Header)
    → (end_headers (add_all interop_server_hset_create headers) ≡ accepted) ↔ (
        (mentions (codes ":path") headers ≡ true)
        × (mentions (codes ":method") headers ≡ true)
        × (mentions (codes ":authority") headers ≡ true))
unfolding end_headers
end_headers-add_all headers = ground (
  arith,
  flags-add_all interop_server_hset_create headers
      (record { path_flag = refl; method_flag = refl }),
)

-- With every allocation successful, the path of a new header set is the value of the first `:path`
-- and its authority that of the last `:authority`, each up to a NUL; null pointers if there is none.
pub values-add_all :
    (headers : List Header)
    → let req = add_all interop_server_hset_create headers in
      (req.path ≡ first_value (codes ":path") headers)
      × (req.authority_str ≡ last_value (codes ":authority") headers none)
values-add_all headers = (
  path-add_all interop_server_hset_create headers,
  authority-add_all interop_server_hset_create headers,
)
