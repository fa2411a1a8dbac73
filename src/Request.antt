-- ===== src/Request.antt =====
-- http_server.c, the header set of a request in interop mode: `struct req`, `new_req`,
-- `interop_server_hset_create`, `interop_server_hset_prepare_decode` and
-- `interop_server_hset_add_header`. Whether an allocation succeeds is an argument. A C string is its
-- bytes before the NUL.
pub mod Serial
pub mod Pseudo
pub mod Decode
mod Tests
use equic.Prelude.{
  ℕ, suc, ◌+◌, ◌-◌, Bool, true, false, ◌&&◌, Option, none, some, List, [], ◌∷◌, ◌++◌, Bytes, codes,
  same_bytes, length, leb, ◌==◌, if◌then◌else◌,
}

-- `enum method`
pub data Method : Type 0 where
  unset get post unsupported : Method

-- `struct req`; the flags PH_AUTHORITY, PH_METHOD and PH_PATH of `pseudo_headers` and HAVE_XHDR of
-- `flags` are fields, and `decode_buf` is left out.
pub record Req : Type 0 where
  pub method : Method
  pub have_xhdr : Bool
  pub ph_authority : Bool
  pub ph_method : Bool
  pub ph_path : Bool
  pub path : Option Bytes
  pub method_str : Option Bytes
  pub authority_str : Option Bytes
  pub qif_str : Option Bytes
  pub qif_sz : ℕ
  pub decode_off : ℕ

-- The result of `interop_server_hset_add_header`: 0, 1 and -1.
pub data Answer : Type 0 where
  accepted rejected failed : Answer

abbrev pub Header : Type 0
Header = Bytes × Bytes

-- `interop_server_hset_create`
abbrev pub interop_server_hset_create : Req
interop_server_hset_create = record {
  method = unset;
  have_xhdr = false;
  ph_authority = false;
  ph_method = false;
  ph_path = false;
  path = none;
  method_str = none;
  authority_str = none;
  qif_str = none;
  qif_sz = 0;
  decode_off = 0;
}

-- `new_req`; the arguments behind the texts say which allocations succeed.
pub new_req : Method → Bytes → Bytes → Bool → Bool → Bool → Option Req
new_req method path authority malloc_ok path_ok authority_ok =
    if malloc_ok && path_ok && authority_ok
    then some (record interop_server_hset_create {
      method = method;
      path = some path;
      authority_str = some authority;
    })
    else none

-- What `strndup` copies of a value: the bytes before a NUL.
unfoldable pub strndup : Bytes → Bytes
strndup [] = []
strndup (c ∷ cs) = if c == 0 then [] else c ∷ strndup cs

pub method_of : Bytes → Method
method_of text =
    if same_bytes text (codes "GET")
    then get
    else if same_bytes text (codes "POST")
    then post
    else unsupported

abbrev is_unset : Method → Bool
is_unset unset = true
is_unset _ = false

-- The bytes of `qif_str`, of which a null pointer has none.
abbrev pub bytes_of : Option Bytes → Bytes
bytes_of none = []
bytes_of (some bytes) = bytes

-- A header as it is kept in `qif_str`.
abbrev pub line : Header → Bytes
line (name, value) = name ++ (b'\t' ∷ (value ++ (b'\n' ∷ [])))

-- `:path`; a second one is rejected.
add_path : Req → Bytes → Bool → Option Bytes → Req × Answer
add_path req value strndup_ok (some path) = (req, rejected)
add_path req value strndup_ok none =
    if strndup_ok
    then (record req { path = some (strndup value); ph_path = true }, accepted)
    else (req, failed)

-- `:method`; a second one is rejected.
add_method : Req → Bytes → Bool → Req × Answer
add_method req value strndup_ok =
    if is_unset req.method
    then (if strndup_ok
        then (
          record req {
            method_str = some (strndup value);
            method = method_of (strndup value);
            ph_method = true;
          },
          accepted,
        )
        else (record req { method_str = none }, failed))
    else (req, rejected)

-- `:authority`; the last one counts.
add_authority : Req → Bytes → Bool → Req × Answer
add_authority req value strndup_ok =
    if strndup_ok
    then (record req { authority_str = some (strndup value); ph_authority = true }, accepted)
    else (record req { authority_str = none }, failed)

-- A header that has been appended to `qif_str`.
add_named : Req → Header → Bool → Req × Answer
add_named req (name, value) strndup_ok =
    if same_bytes name (codes ":path")
    then add_path req value strndup_ok req.path
    else if same_bytes name (codes ":method")
    then add_method req value strndup_ok
    else if same_bytes name (codes ":authority")
    then add_authority req value strndup_ok
    else (req, accepted)

-- The call at the end of the headers, with a null header.
pub end_headers : Req → Answer
end_headers req = if req.ph_authority && req.ph_method && req.ph_path then accepted else rejected

-- The arguments say whether `realloc` and `strndup` succeed.
pub interop_server_hset_add_header : Req → Header → Bool → Bool → Req × Answer
unfolding add_named add_path add_method add_authority
interop_server_hset_add_header req header realloc_ok strndup_ok =
    if realloc_ok
    then add_named
        (record req {
          qif_str = some (bytes_of req.qif_str ++ line header);
          qif_sz = req.qif_sz + length header.0 + length header.1 + 2;
        })
        header strndup_ok
    else (record req { qif_str = none }, failed)

-- Headers in order, with every allocation successful.
pub add_all : Req → List Header → Req
add_all req [] = req
add_all req (header ∷ rest) = add_all (interop_server_hset_add_header req header true true).0 rest

-- `xhdr_given` says that a header is to be grown, and `dec_size` is
-- `lsxpack_header_get_dec_size` of the header before. The result is the offset and the length of
-- the part of `decode_buf` that the next header may use.
pub interop_server_hset_prepare_decode : ℕ → Req → Bool → ℕ → Req × Option (ℕ × ℕ)
interop_server_hset_prepare_decode size_of_decode_buf req xhdr_given dec_size =
    if xhdr_given
    then (req, none)
    else if req.have_xhdr
    then (if leb size_of_decode_buf (req.decode_off + dec_size) then (req, none) else (
      record req { decode_off = req.decode_off + dec_size },
      some (req.decode_off + dec_size, size_of_decode_buf - (req.decode_off + dec_size)),
    ))
    else (
      record req { have_xhdr = true },
      some (req.decode_off, size_of_decode_buf - req.decode_off),
    )
