-- ===== src/Interop/Samples.antt =====
-- A library in which only /64K matches a pattern, a sum that is the number of bytes, and requests.
use equic.Prelude.{
  ℕ, ◌≡◌, refl, get_or, Bool, true, false, none, some, Option, List, [], ◌∷◌, Bytes, codes, length,
  same_bytes, printed, if◌then◌else◌,
}
use equic.Request.{Req, get}
use equic.Routes.{Match, gen_file}
use equic.Interop.Types.{StreamCtx, blank, Input, failed, got}

abbrev pub matches_of_64k : List Match
matches_of_64k = some (0, 4) ∷ some (1, 3) ∷ some (3, 4) ∷ []

abbrev pub regexec : Bytes → Bytes → Option (List Match)
regexec pattern path = if same_bytes path (codes "/64K") then some matches_of_64k else none

abbrev pub md5 : Bytes → Bytes
md5 bytes = printed (length bytes)

abbrev pub req_for : Bytes → Req
req_for path = record {
  method = get;
  have_xhdr = false;
  ph_authority = true;
  ph_method = true;
  ph_path = true;
  path = some path;
  method_str = some (codes "GET");
  authority_str = some (codes "a");
  qif_str = some (codes "ab");
  qif_sz = 2;
  decode_off = 0;
}

abbrev pub new_stream : StreamCtx
new_stream = record {
  headers_sent = false;
  headers_read = false;
  interop_handler = gen_file;
  req = none;
  resp_status = [];
  interop_u = blank;
}

abbrev pub reading : Option Req → List (Bytes × Bool) → Input
reading hset pieces = record {
  hset = hset;
  pieces = pieces;
  readf_failed = false;
  body = failed;
  buffer = none;
  memory = λ i. true;
}

abbrev pub body_read : Bytes → Input
body_read bytes = record {
  hset = none;
  pieces = [];
  readf_failed = false;
  body = got bytes;
  buffer = some (codes "xb");
  memory = λ i. true;
}

grouped_if :
    (b : Bool) (matches : List Match)
    → (if b then some matches_of_64k else none) ≡ some matches
    → (found : ℕ × ℕ) × (get_or matches 1 none ≡ some found)
grouped_if true matches e = ((1, 3), cc e)
grouped_if false matches e = absurd (cc e)

grouped :
    (pattern path : Bytes) (matches : List Match)
    → regexec pattern path ≡ some matches
    → (found : ℕ × ℕ) × (get_or matches 1 none ≡ some found)
grouped pattern path matches e = grouped_if (same_bytes path (codes "/64K")) matches e

pub patterns_grouped :
    (pattern : Bytes)
    → (true ≡ true)
      × ((path : Bytes) (matches : List Match)
          → regexec pattern path ≡ some matches
          → (found : ℕ × ℕ) × (get_or matches 1 none ≡ some found))
patterns_grouped pattern = (refl, grouped pattern)
