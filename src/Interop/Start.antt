-- ===== src/Interop/Start.antt =====
-- http_server.c, `http_server_interop_on_read` on its first call for a stream: it looks up the
-- service for the request. The page INDEX_HTML and the regular expressions are parameters.
pub mod Tables
pub mod Found
pub mod Session
use equic.Prelude.{
  ℕ, zero, suc, ◌+◌, ◌-◌, min, Bool, true, false, not, ◌&&◌, ◌||◌, Option, none, some, List, [],
  ◌∷◌, ◌++◌, Bytes, codes, printed, same_bytes, length, take, drop, get_elem?, get_or, ltb, ◌==◌,
  if◌then◌else◌,
}
use equic.Lsquic.{Call, shutdown, want_write, log, Outcome, returns, exits, faults}
use equic.GenFile.{GenFile}
use equic.GenFile.Size.{strtol, gen_size}
use equic.Request.{Req, Method, unset, unsupported, bytes_of}
use equic.Routes.{
  Handler, error, index_html, md5sum, ver_head, gen_file, ReqMap, Match, group, find_handler,
}
use equic.Interop.Types.{
  Resp, Union, blank, err, ihc, vhc, md5c, gfc, StreamCtx, Body, failed, got, Input, answer,
  size_of_err, error_resp,
}

-- The `for` loop over the groups from the third: it ends at the first that did not match.
unfoldable pub push_paths_of : Bytes → List Match → List Bytes
push_paths_of path [] = []
push_paths_of path (none ∷ rest) = []
push_paths_of path (some m ∷ rest) = group path m ∷ push_paths_of path rest

-- The letter of the size, if its group matched and is not empty.
unfoldable pub letter_of : Bytes → Match → Option ℕ
letter_of path none = none
letter_of path (some (so, eo)) = if ltb so eo then get_elem? path so else none

-- Whether each `malloc` of a push path, of the first so many, gives memory.
unfoldable pub have_memory : (ℕ → Bool) → ℕ → Bool
have_memory memory zero = true
have_memory memory (suc n) = memory n && have_memory memory n

-- The result of `malloc` is not tested, so the copy of a path for which there is no memory faults.
start_size : (ℕ → Bool) → StreamCtx → Bytes → List Match → ℕ × Bool → Outcome StreamCtx
start_size memory st_h path matches (remain, true) =
    error_resp st_h (codes "406")
      (codes "Response of " ++ (printed remain ++ codes " bytes is too long to generate"))
start_size memory st_h path matches (remain, false) =
    if have_memory memory (length (push_paths_of path (drop 3 matches)))
    then returns
        (record st_h {
          interop_u = gfc (record {
            push_paths = push_paths_of path (drop 3 matches);
            remain = remain;
            idle_off = 0;
          });
        })
        answer
    else faults

-- `strtol` from the first group on. That group takes part in every match of the patterns; without
-- it the pointer is in front of the path.
start_gen_file : (ℕ → Bool) → StreamCtx → Bytes → List Match → Match → Outcome StreamCtx
start_gen_file memory st_h path matches none = faults
start_gen_file memory st_h path matches (some (so, eo)) =
    start_size memory st_h path matches
      (gen_size (strtol (drop so path)) (letter_of path (get_or matches 2 none)))

module _ (index_page : Bytes) (regexec : Bytes → Bytes → Option (List Match)) (maps : List ReqMap)
    (memory : ℕ → Bool) where
  -- The `switch` on the handler that was found.
  start_handler : Handler → StreamCtx → Req → Bytes → List Match → List Call → Outcome StreamCtx
  start_handler index_html st_h req path matches calls =
      returns
        (record st_h {
          interop_u = ihc (record { buf = index_page; sz = length index_page; off = 0 });
        })
        calls
  start_handler ver_head st_h req path matches calls =
      returns
        (record st_h {
          interop_u = vhc (record { buf = bytes_of req.qif_str; sz = req.qif_sz; off = 0 }) none 0;
        })
        calls
  start_handler md5sum st_h req path matches calls =
      returns (record st_h { interop_u = md5c (record { buf = []; sz = 0; off = 0 }) [] false })
        calls
  start_handler gen_file st_h req path matches calls =
      start_gen_file memory st_h path matches (get_or matches 1 none)
  start_handler _ st_h req path matches calls = faults

  start_found : StreamCtx → Req → Bytes → Option (ReqMap × List Match) → Outcome StreamCtx
  start_found st_h req path none = error_resp st_h (codes "404") (
      codes "No handler found for method: "
      ++ (bytes_of req.method_str ++ (codes "; path: " ++ path)))
  start_found st_h req path (some (m, matches)) =
      start_handler m.handler (record st_h { resp_status = m.status; interop_handler = m.handler })
        req path matches (if m.want_body then [] else answer)

  start_path : StreamCtx → Req → Method → Option Bytes → Outcome StreamCtx
  start_path st_h req unset path = error_resp st_h (codes "400") (codes "Method is not specified")
  start_path st_h req method none = error_resp st_h (codes "400") (codes "Path is not specified")
  start_path st_h req unsupported (some path) =
      error_resp st_h (codes "501")
        (codes "Method " ++ (bytes_of req.method_str ++ codes " is not supported"))
  start_path st_h req method (some path) =
      start_found st_h req path (find_handler regexec maps method path)

  unfoldable pub start : StreamCtx → Option Req → Outcome StreamCtx
  unfolding start_path start_found start_handler start_gen_file start_size letter_of push_paths_of
      have_memory
  start st_h none =
      error_resp st_h (codes "500") (codes "Internal error: cannot fetch header set from stream")
  start st_h (some req) = start_path st_h req req.method req.path
