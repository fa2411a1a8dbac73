-- ===== src/Interop/Start/Session.antt =====
-- The first call of `http_server_interop_on_read` sets up what holds of a stream.
use equic.Prelude.{
  ℕ, zero, suc, drop, ◌<◌, ◌^◌, ◌≡◌, refl, ap, arith, Bool, true, false, Option, none, some, List,
  [], Bytes, codes, length, if◌then◌else◌,
}
use equic.Lsquic.{Call}
use equic.Request.{Req, Method, unset, get, post, unsupported}
use equic.Routes.{
  Handler, error, index_html, md5sum, ver_head, gen_file, echo, ReqMap, Match, matched,
}
use equic.Routes.First.{AllMaps, Found, find_handler-Found, matched-compiled}
use equic.Interop.Types.{StreamCtx, answer, error_resp}
use equic.Interop.Start.{
  have_memory, start_size, start_gen_file, start_handler, start_found, start_path, start,
  push_paths_of,
}
use equic.Interop.Start.Tables.{IsServed, Serves}
use equic.Interop.Session.{Wants, wants_after}
use equic.Interop.Session.Invariant.{Stays}

-- The handlers that read the body of a request.
unfoldable pub reads_body : Handler → Bool
reads_body md5sum = true
reads_body ver_head = true
reads_body h = false

-- A header set from `end_headers` is not empty.
abbrev pub IsFilled : Option Req → Type 0
IsFilled none = Unit
IsFilled (some req) = 0 < req.qif_sz

-- There is memory for each push path.
abbrev pub HasMemory : (ℕ → Bool) → Type 0
HasMemory memory = (i : ℕ) → memory i ≡ true

HasMemory-have_memory : (memory : ℕ → Bool) (n : ℕ) → HasMemory memory → have_memory memory n ≡ true
unfolding have_memory
HasMemory-have_memory memory zero h = refl
HasMemory-have_memory memory (suc n) h = rw (h n) (HasMemory-have_memory memory n h)

module _ (index_page : Bytes) (regexec : Bytes → Bytes → Option (List Match)) where
  -- The entry is for a service, and asks for the body exactly if the service reads it.
  abbrev pub IsAnswered : ReqMap → Type 0
  IsAnswered m = IsServed index_page regexec m × (m.want_body ≡ reads_body m.handler)

  module _ (on_being_idle : Bytes) (short : length on_being_idle < 2 ^ 32)
      (long : 0 < length on_being_idle) (paged : 0 < length index_page) where
    -- A stream whose header set was just read.
    abbrev Begins : StreamCtx → Option Req → Wants → Type 0
    Begins st_h hset w = (st_h.headers_read ≡ true) × (st_h.req ≡ hset) × (w.writes ≡ false)

    error_resp-Stays :
        (st_h : StreamCtx) (status message : Bytes) (w : Wants) (failed : Bool)
        → st_h.headers_read ≡ true
        → 0 < length message
        → Stays on_being_idle short w failed (error_resp st_h status message)
    unfolding error_resp wants_after
    error_resp-Stays st_h status message w failed r m = rw r (omega (arith, m), refl)

    start_size-Stays :
        (memory : ℕ → Bool) (st_h : StreamCtx) (req : Req) (path : Bytes) (matches : List Match)
        (size : ℕ × Bool) (w : Wants) (failed : Bool)
        → Begins st_h (some req) w
        → st_h.interop_handler ≡ gen_file
        → HasMemory memory
        → Stays on_being_idle short w failed (start_size memory st_h path matches size)
    unfolding start_size wants_after
    start_size-Stays memory st_h req path matches (remain, true) w failed (r, q, off) h room =
        error_resp-Stays st_h (codes "406") _ w failed r (omega arith)
    start_size-Stays memory st_h req path matches (remain, false) w failed (r, q, off) h room =
        rw (HasMemory-have_memory memory (length (push_paths_of path (drop 3 matches))) room, r, h)
          (long, (req, q), refl)

    start_handler-Stays :
        (maps : List ReqMap) (memory : ℕ → Bool) (h : Handler) (st_h : StreamCtx) (req : Req)
        (path : Bytes) (matches : List Match) (calls : List Call) (m : ReqMap) (w : Wants)
        (failed : Bool)
        → Begins st_h (some req) w
        → st_h.interop_handler ≡ h
        → 0 < req.qif_sz
        → calls ≡ (if reads_body h then [] else answer)
        → HasMemory memory
        → Serves index_page regexec h m
        → matched regexec m path ≡ some matches
        → Stays on_being_idle short w failed
            (start_handler index_page regexec maps memory h st_h req path matches calls)
    unfolding start_handler start_gen_file reads_body wants_after
    start_handler-Stays maps memory index_html st_h req path matches calls m w failed (r, q, off) h
          z c room s e =
        rw (r, h, c) (paged, refl)
    start_handler-Stays maps memory ver_head st_h req path matches calls m w failed (r, q, off) h z
          c room s e =
        rw (r, h) (z, (req, q))
    start_handler-Stays maps memory md5sum st_h req path matches calls m w failed (r, q, off) h z c
          room s e =
        rw (r, h, c) off
    start_handler-Stays maps memory gen_file st_h req path matches calls m w failed b h z c room s
          e =
        let found = s.1 path matches (cc (matched-compiled regexec m path s.0, e)) in
        rw found.1 (start_size-Stays memory st_h req path matches _ w failed b h room)
    start_handler-Stays maps memory error st_h req path matches calls m w failed b h z c room s e =
        absurd s
    start_handler-Stays maps memory echo st_h req path matches calls m w failed b h z c room s e =
        absurd s

    start_found-Stays :
        (maps : List ReqMap) (memory : ℕ → Bool) (st_h : StreamCtx) (req : Req) (path : Bytes)
        (found : Option (ReqMap × List Match)) (w : Wants) (failed : Bool)
        → Begins st_h (some req) w
        → 0 < req.qif_sz
        → HasMemory memory
        → Found regexec IsAnswered path found
        → Stays on_being_idle short w failed
            (start_found index_page regexec maps memory st_h req path found)
    unfolding start_found
    start_found-Stays maps memory st_h req path none w failed b z room h =
        error_resp-Stays st_h _ _ w failed b.0 (omega arith)
    start_found-Stays maps memory st_h req path (some (m, matches)) w failed b z room h =
        start_handler-Stays maps memory m.handler
          (record st_h { resp_status = m.status; interop_handler = m.handler }) req path matches _ m
          w failed b refl z (ap (λ b. if b then [] else answer) h.0.1) room h.0.0 h.1

    start_path-Stays :
        (maps : List ReqMap) (memory : ℕ → Bool) (st_h : StreamCtx) (req : Req) (method : Method)
        (path : Option Bytes) (w : Wants) (failed : Bool)
        → Begins st_h (some req) w
        → 0 < req.qif_sz
        → HasMemory memory
        → AllMaps regexec IsAnswered maps
        → Stays on_being_idle short w failed
            (start_path index_page regexec maps memory st_h req method path)
    unfolding start_path
    start_path-Stays maps memory st_h req unset path w failed b z room h =
        error_resp-Stays st_h _ _ w failed b.0 (omega arith)
    start_path-Stays maps memory st_h req get none w failed b z room h =
        error_resp-Stays st_h _ _ w failed b.0 (omega arith)
    start_path-Stays maps memory st_h req post none w failed b z room h =
        error_resp-Stays st_h _ _ w failed b.0 (omega arith)
    start_path-Stays maps memory st_h req unsupported none w failed b z room h =
        error_resp-Stays st_h _ _ w failed b.0 (omega arith)
    start_path-Stays maps memory st_h req unsupported (some path) w failed b z room h =
        error_resp-Stays st_h _ _ w failed b.0 (omega arith)
    start_path-Stays maps memory st_h req get (some path) w failed b z room h =
        start_found-Stays maps memory st_h req path _ w failed b z room
          (find_handler-Found regexec IsAnswered maps get path h)
    start_path-Stays maps memory st_h req post (some path) w failed b z room h =
        start_found-Stays maps memory st_h req path _ w failed b z room
          (find_handler-Found regexec IsAnswered maps post path h)

    pub start-Stays :
        (maps : List ReqMap) (memory : ℕ → Bool) (st_h : StreamCtx) (hset : Option Req) (w : Wants)
        (failed : Bool)
        → Begins st_h hset w
        → IsFilled hset
        → HasMemory memory
        → AllMaps regexec IsAnswered maps
        → Stays on_being_idle short w failed (start index_page regexec maps memory st_h hset)
    unfolding start
    start-Stays maps memory st_h none w failed b z room h =
        error_resp-Stays st_h _ _ w failed b.0 (omega arith)
    start-Stays maps memory st_h (some req) w failed b z room h =
        start_path-Stays maps memory st_h req req.method req.path w failed b z room h
