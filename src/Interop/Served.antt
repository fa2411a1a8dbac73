-- ===== src/Interop/Served.antt =====
-- Whole requests of the interop mode, and their answers: `http_server_interop_on_read` and
-- `http_server_interop_on_write` together.
mod Tests
use equic.Prelude.{
  ℕ, ◌+◌, ◌<◌, ◌≤◌, ◌^◌, ◌≡◌, ◌⊎◌, refl, ap, ◌∙◌, arith, Bool, not, true, false, Option, none, some,
  List, [], ◌∷◌, ◌++◌, map, Bytes, codes, printed, length, drop, get_or, if◌then◌else◌,
}
use equic.Lsquic.{returns}
use equic.Lsquic.Chain.{and_then_nothing}
use equic.Lsquic.Peer.{Sent, nothing}
use equic.GenFile.Size.{strtol, size_limit}
use equic.GenFile.Cyclic.{cyclic}
use equic.Request.{Req, get, post}
use equic.Routes.{Match, ReqMap, req_maps, init_map_regexes, to_lower, gen_file, find_handler}
use equic.Interop.Types.{StreamCtx, Input, answer}
use equic.Interop.Start.{letter_of, push_paths_of, have_memory, start}
use equic.Interop.Start.Found.{asked_size, generates, start-generated}
use equic.Interop.Rest.{md5_page, read_body}
use equic.Interop.Rest.Digest.{all_of, body_of, IsLast, AreOpen, digest_done}
use equic.Interop.Read.{http_server_interop_on_read, run}
use equic.Interop.Read.Answers.{run-md5sum, run-start}
use equic.Interop.Write
use equic.Interop.Write.Whole
use equic.Interop.Write.Whole.{run-whole}
use equic.Interop.Write.Generated
use equic.Interop.Write.Generated.{run_generated}
use equic.Interop.Write.Generated.Headers.{run-generated}

module _ (index_page : Bytes) (regexec : Bytes → Bytes → Option (List Match)) (md5 : Bytes → Bytes)
    (litespeed_id on_being_idle : Bytes) where
  -- An answer of status 200 and this size.
  abbrev pub head : ℕ → List (Bytes × Bytes)
  head size =
      (codes ":status", codes "200")
      ∷ (codes "server", litespeed_id)
      ∷ (codes "content-type", codes "text/html")
      ∷ (codes "content-length", printed size)
      ∷ []

  -- The stream when the body was digested.
  abbrev pub after_md5sum : StreamCtx → Req → Bytes → StreamCtx
  after_md5sum st_h req body =
      digest_done (record st_h { req = some req; resp_status = codes "200" }) (md5_page (md5 body))
        body

  -- For every new stream, every request with method GET or POST for /cgi-bin/md5sum.cgi, in
  -- capital or small letters, and a body that arrives in any reads that take bytes, up to the one
  -- that sees its end or takes nothing: the calls of the reading handler return and ask to write;
  -- and if lsquic then takes the headers, and some bytes of each write, perhaps none, and all of
  -- them in the end, the peer gets one header block, with status 200 and the size of the page, and
  -- the page with the MD5 sum of the whole body, and the writing side is shut down.
  pub served-md5sum :
      (st_h : StreamCtx) (req : Req) (path : Bytes) (first last : Input) (inputs : List Input)
      (write0 : Write.Input) (writes : List Write.Input)
      → st_h.headers_read ≡ false
      → st_h.headers_sent ≡ false
      → first.hset ≡ some req
      → (req.method ≡ get) ⊎ (req.method ≡ post)
      → req.path ≡ some path
      → map to_lower path ≡ codes "/cgi-bin/md5sum.cgi"
      → AreOpen inputs
      → IsLast last
      → write0.headers_ok ≡ true
      → Whole.TakeAll writes (length (md5_page (md5 (body_of inputs ++ all_of last.pieces))))
      → (run index_page regexec md5
            (init_map_regexes req_maps)
            st_h
            (first ∷ (inputs ++ (last ∷ [])))
          ≡ returns (after_md5sum st_h req (body_of inputs ++ all_of last.pieces)) answer)
        × (Whole.run litespeed_id on_being_idle
              (after_md5sum st_h req (body_of inputs ++ all_of last.pieces))
              (write0 ∷ writes)
              nothing
            ≡ some (record {
              heads = head (length (md5_page (md5 (body_of inputs ++ all_of last.pieces)))) ∷ [];
              bytes = md5_page (md5 (body_of inputs ++ all_of last.pieces));
              closed = true;
            }))
  served-md5sum st_h req path first last inputs write0 writes h n f g p e o l k t =
      let body = body_of inputs ++ all_of last.pieces in
      let page = md5_page (md5 body) in
      (
        run-md5sum index_page regexec md5 st_h req path first last inputs h f g p e o l,
        run-whole litespeed_id on_being_idle (after_md5sum st_h req body)
            (record { buf = page; sz = length page; off = 0 }) write0 writes refl n k (omega arith)
            refl refl t,
      )

  -- For every table and every new stream, every request with method GET or POST for which the
  -- table gives a generated file, by a match whose first group is a number below 2 ^ 34, and whose
  -- second may be a letter K, M or G, for a file of at most 2 GiB, with memory for each path to
  -- push and a text that is not empty and shorter than 2 ^ 32 bytes: the call of the reading
  -- handler returns and asks to write; and if lsquic then takes the headers and what each write
  -- gives it, with preadv on or off, in buffers of fewer than 2 ^ 32 bytes and with preadv at
  -- least one byte each time, up to the last bytes, the peer gets one header block with the status
  -- of the table and the size, and as many bytes as the size says, those of the text repeated
  -- without end, and the writing side is shut down.
  pub served-generated :
      (short : length on_being_idle < 2 ^ 32) (maps : List ReqMap) (st_h : StreamCtx) (req : Req)
      (path : Bytes) (m : ReqMap) (matches : List Match) (so eo : ℕ) (first : Input)
      (write0 : Write.Input) (writes : List Write.Input)
      → 0 < length on_being_idle
      → st_h.headers_read ≡ false
      → st_h.headers_sent ≡ false
      → first.hset ≡ some req
      → (req.method ≡ get) ⊎ (req.method ≡ post)
      → req.path ≡ some path
      → find_handler regexec maps req.method path ≡ some (m, matches)
      → m.handler ≡ gen_file
      → get_or matches 1 none ≡ some (so, eo)
      → strtol (drop so path) < 2 ^ 34
      → let size =
          asked_size index_page regexec
            (strtol (drop so path))
            (letter_of path (get_or matches 2 none)) in
        size ≤ size_limit
        → have_memory first.memory (length (push_paths_of path (drop 3 matches))) ≡ true
        → write0.headers_ok ≡ true
        → Generated.TakeAll litespeed_id on_being_idle short writes size
        → (run index_page regexec md5 maps st_h (first ∷ [])
            ≡ returns (generates index_page regexec st_h m req path matches size) answer)
          × (run_generated litespeed_id on_being_idle short
                (generates index_page regexec st_h m req path matches size)
                (write0 ∷ writes)
                nothing
              ≡ some (record {
                heads =
                    ((codes ":status", m.status)
                      ∷ (codes "server", litespeed_id)
                      ∷ (codes "content-type", codes "text/html")
                      ∷ (codes "content-length", printed size)
                      ∷ [])
                    ∷ [];
                bytes = cyclic on_being_idle 0 size;
                closed = true;
              }))
  served-generated short maps st_h req path m matches so eo first write0 writes long h n f g p found
        e group1 small fits room ok t =
      let size =
        asked_size index_page regexec (strtol (drop so path))
          (letter_of path (get_or matches 2 none)) in
      (
        run-start index_page regexec md5 maps st_h (some req) first h f
            ∙ start-generated index_page regexec maps first.memory st_h req path m matches so eo g p
                found e group1 small fits room,
        run-generated litespeed_id on_being_idle short
            (generates index_page regexec st_h m req path matches size)
            (record {
              push_paths = push_paths_of path (drop 3 matches);
              remain = size;
              idle_off = 0;
            })
            req write0 writes e refl n refl long refl ok t,
      )
