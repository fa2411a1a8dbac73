-- ===== src/Interop/Start/Found.antt =====
-- The first call for a stream whose request is for an MD5 sum, or for a generated file.
use equic.Prelude.{
  ℕ, Bool, length, ◌*◌, ◌^◌, ◌<◌, ◌≤◌, ◌≡◌, ◌⊎◌, ◌∙◌, inl, inr, refl, ap, sym, arith, true, false,
  none, some, Option, List, [], map, Bytes, codes, drop, get_or, ltb, if◌then◌else◌,
}
use equic.Lsquic.{faults, Call, returns}
use equic.GenFile.Size.{strtol, gen_size, unit_of, size_limit, gen_size-unit_of}
use equic.Request.{Req, get, post}
use equic.Routes.{Match, ReqMap, req_maps, init_map_regexes, to_lower, gen_file, find_handler}
use equic.Routes.First.{find_handler-md5sum}
use equic.Interop.Types.{Resp, StreamCtx, gfc, answer}
use equic.Interop.Start.{
  letter_of, push_paths_of, have_memory, start_size, start_gen_file, start, start_path, start_found,
  start_handler,
}
use equic.Interop.Rest.Digest.{digesting}

abbrev pub empty_resp : Resp
empty_resp = record { buf = []; sz = 0; off = 0 }

ltb-false : (a b : ℕ) → b ≤ a → ltb a b ≡ false
ltb-false a b h = ground arith

module _ (index_page : Bytes) (regexec : Bytes → Bytes → Option (List Match)) where
  pub start-md5sum :
      (memory : ℕ → Bool) (st_h : StreamCtx) (req : Req) (path : Bytes)
      → (req.method ≡ get) ⊎ (req.method ≡ post)
      → req.path ≡ some path
      → map to_lower path ≡ codes "/cgi-bin/md5sum.cgi"
      → start index_page regexec
          (init_map_regexes req_maps)
          memory
          (record st_h { headers_read = true; req = some req })
          (some req)
        ≡ returns
            (digesting (record st_h { req = some req; resp_status = codes "200" }) empty_resp [])
            []
  unfolding start start_path start_found start_handler
  start-md5sum memory st_h req path (inl g) p e =
      rw (g, p, find_handler-md5sum regexec get path e) refl
  start-md5sum memory st_h req path (inr g) p e =
      rw (g, p, find_handler-md5sum regexec post path e) refl

  start_path-some :
      (maps : List ReqMap) (memory : ℕ → Bool) (st_h : StreamCtx) (req : Req) (path : Bytes)
      → (req.method ≡ get) ⊎ (req.method ≡ post)
      → start_path index_page regexec maps memory st_h req req.method (some path)
        ≡ start_found index_page regexec maps memory st_h req path
            (find_handler regexec maps req.method path)
  unfolding start_path
  start_path-some maps memory st_h req path (inl g) =
      ap (λ method. start_path index_page regexec maps memory st_h req method (some path)) g
      ∙ ap
          (λ method.
            start_found index_page regexec maps memory st_h req path
              (find_handler regexec maps method path))
          (sym g)
  start_path-some maps memory st_h req path (inr g) =
      ap (λ method. start_path index_page regexec maps memory st_h req method (some path)) g
      ∙ ap
          (λ method.
            start_found index_page regexec maps memory st_h req path
              (find_handler regexec maps method path))
          (sym g)

  -- The size that a request asks for, where it fits.
  abbrev pub asked_size : ℕ → Option ℕ → ℕ
  asked_size number none = number
  asked_size number (some c) = number * unit_of c

  gen_size-asked_size :
      (number : ℕ) (letter : Option ℕ)
      → number < 2 ^ 34
      → asked_size number letter ≤ size_limit
      → gen_size number letter ≡ (asked_size number letter, false)
  unfolding gen_size
  gen_size-asked_size number none h fits =
      ap (λ refused. (number, refused)) (ltb-false size_limit number fits)
  gen_size-asked_size number (some c) h fits =
      gen_size-unit_of number c h
      ∙ ap (λ refused. (number * unit_of c, refused))
          (ltb-false size_limit (number * unit_of c) fits)

  -- The state in which a request for a generated file leaves a stream.
  abbrev pub generates : StreamCtx → ReqMap → Req → Bytes → List Match → ℕ → StreamCtx
  generates st_h m req path matches size = record st_h {
    headers_read = true;
    req = some req;
    resp_status = m.status;
    interop_handler = m.handler;
    interop_u =
        gfc (record {
          push_paths = push_paths_of path (drop 3 matches);
          remain = size;
          idle_off = 0;
        });
  }

  pub start-generated :
      (maps : List ReqMap) (memory : ℕ → Bool) (st_h : StreamCtx) (req : Req) (path : Bytes)
      (m : ReqMap) (matches : List Match) (so eo : ℕ)
      → (req.method ≡ get) ⊎ (req.method ≡ post)
      → req.path ≡ some path
      → find_handler regexec maps req.method path ≡ some (m, matches)
      → m.handler ≡ gen_file
      → get_or matches 1 none ≡ some (so, eo)
      → strtol (drop so path) < 2 ^ 34
      → asked_size (strtol (drop so path)) (letter_of path (get_or matches 2 none)) ≤ size_limit
      → have_memory memory (length (push_paths_of path (drop 3 matches))) ≡ true
      → start index_page regexec maps memory
          (record st_h { headers_read = true; req = some req })
          (some req)
        ≡ returns
            (generates st_h m req path matches
              (asked_size (strtol (drop so path)) (letter_of path (get_or matches 2 none))))
            answer
  unfolding start start_path start_found start_handler start_gen_file start_size
  start-generated maps memory st_h req path m matches so eo g p found e group1 small fits room =
      let begun = record st_h { headers_read = true; req = some req } in
      let st = record begun { resp_status = m.status; interop_handler = m.handler } in
      let calls : List Call = if m.want_body then [] else answer in
      ap (λ path'. start_path index_page regexec maps memory begun req req.method path') p
      ∙ start_path-some maps memory begun req path g
      ∙ ap (start_found index_page regexec maps memory begun req path) found
      ∙ ap (λ h. start_handler index_page regexec maps memory h st req path matches calls) e
      ∙ ap (start_gen_file memory st path matches) group1
      ∙ ap (start_size memory st path matches) (
          gen_size-asked_size (strtol (drop so path)) (letter_of path (get_or matches 2 none)) small
            fits)
      ∙ ap
          (λ room.
            if room
            then returns
                (generates st_h m req path matches
                  (asked_size (strtol (drop so path)) (letter_of path (get_or matches 2 none))))
                answer
            else faults)
          room
