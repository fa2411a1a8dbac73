-- ===== src/Routes.antt =====
-- http_server.c, the services of the interop mode: `struct req_map`, `req_maps`,
-- `init_map_regexes`, `free_map_regexes` and `find_handler`. Regular expressions are those of the
-- system's library: whether a pattern matches a path, and where, is a parameter.
pub mod First
mod Tests
use equic.Prelude.{
  ℕ, ◌+◌, Bool, true, false, ◌&&◌, Option, none, some, List, [], ◌∷◌, map, Bytes, codes, same_bytes,
  leb, take, drop, ◌-◌, if◌then◌else◌,
}
use equic.Request.{Method, get, post}

-- `enum interop_handler`
pub data Handler : Type 0 where
  error index_html md5sum ver_head gen_file echo : Handler

-- `struct req_map`; the flags RM_WANTBODY, RM_REGEX and RM_COMPILED are fields.
pub record ReqMap : Type 0 where
  pub method : Method
  pub path : Bytes
  pub handler : Handler
  pub status : Bytes
  pub want_body : Bool
  pub regex : Bool
  pub compiled : Bool

-- `regmatch_t`: where a group matched, or -1.
abbrev pub Match : Type 0
Match = Option (ℕ × ℕ)

-- The bytes of a text that a group matched.
abbrev pub group : Bytes → ℕ × ℕ → Bytes
group path (so, eo) = take (eo - so) (drop so path)

abbrev pub plain : Method → Bytes → Handler → Bool → ReqMap
plain method path handler want_body = record {
  method = method;
  path = path;
  handler = handler;
  status = codes "200";
  want_body = want_body;
  regex = false;
  compiled = false;
}

abbrev pub pattern_of : Bytes → ReqMap
pattern_of path = record (plain get path gen_file false) { regex = true }

abbrev pub req_maps : List ReqMap
req_maps =
    plain get (codes "/") index_html false
    ∷ plain get (codes "/index.html") index_html false
    ∷ plain post (codes "/cgi-bin/md5sum.cgi") md5sum true
    ∷ plain post (codes "/cgi-bin/verify-headers.cgi") ver_head true
    ∷ pattern_of (codes "^/([0-9][0-9]*)([KMG]?)$")
    ∷ pattern_of (codes "^/([0-9][0-9]*)([KMG]?)\\?push=([^&]*)$")
    ∷ pattern_of (codes "^/([0-9][0-9]*)([KMG]?)\\?push=([^&]*)&push=([^&]*)$")
    ∷ pattern_of (codes "^/([0-9][0-9]*)([KMG]?)\\?push=([^&]*)&push=([^&]*)&push=([^&]*)$")
    ∷ pattern_of (codes "^/file-([0-9][0-9]*)([KMG]?)$")
    ∷ pattern_of (codes "^/file-([0-9][0-9]*)([KMG]?)\\?push=([^&]*)$")
    ∷ pattern_of (codes "^/file-([0-9][0-9]*)([KMG]?)\\?push=([^&]*)&push=([^&]*)$")
    ∷ pattern_of (codes "^/file-([0-9][0-9]*)([KMG]?)\\?push=([^&]*)&push=([^&]*)&push=([^&]*)$")
    ∷ []

-- `regcomp` of these patterns succeeds, so its assertion holds.
unfoldable pub init_map_regexes : List ReqMap → List ReqMap
init_map_regexes [] = []
init_map_regexes (m ∷ rest) =
    (if m.regex then record m { compiled = true } else m) ∷ init_map_regexes rest

pub free_map_regexes : List ReqMap → List ReqMap
free_map_regexes [] = []
free_map_regexes (m ∷ rest) =
    (if m.compiled then record m { compiled = false } else m) ∷ free_map_regexes rest

abbrev pub to_lower : ℕ → ℕ
to_lower c = if leb b'A' c && leb c b'Z' then c + 32 else c

-- `0 == strcasecmp`
abbrev pub same_letters : Bytes → Bytes → Bool
same_letters xs ys = same_bytes (map to_lower xs) (map to_lower ys)

module _ (regexec : Bytes → Bytes → Option (List Match)) where
  -- Whether an entry is for a path, with the matches of its groups.
  unfoldable pub matched : ReqMap → Bytes → Option (List Match)
  matched m path =
      if m.compiled then regexec m.path path else if same_letters path m.path then some [] else none

  unfoldable pub on_match :
      ReqMap → Option (List Match) → Option (ReqMap × List Match) → Option (ReqMap × List Match)
  on_match m none rest = rest
  on_match m (some matches) rest = some (m, matches)

  -- The argument `method` is not used, as in the source.
  unfoldable pub find_handler : List ReqMap → Method → Bytes → Option (ReqMap × List Match)
  unfolding matched on_match
  find_handler [] method path = none
  find_handler (m ∷ rest) method path = on_match m (matched m path) (find_handler rest method path)
