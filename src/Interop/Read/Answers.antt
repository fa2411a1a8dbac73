-- ===== src/Interop/Read/Answers.antt =====
-- What the reads of a whole request leave.
use mathlib.Core.List.{append_assoc}
use equic.Prelude.{
  ◌≡◌, ◌⊎◌, ◌∙◌, ap, refl, not, if◌then◌else◌, true, false, Option, some, List, [], ◌∷◌, ◌++◌, map,
  Bytes, codes,
}
use equic.Lsquic.{returns}
use equic.Request.{Req, get, post}
use equic.Routes.{Match, ReqMap, req_maps, init_map_regexes, to_lower}
use equic.Interop.Types.{Resp, StreamCtx, Input, answer}
use equic.Interop.Start.Found.{empty_resp, start-md5sum}
use equic.Interop.Start.{start}
use equic.Interop.Rest.{md5_page, read_body}
use equic.Interop.Rest.Digest.{
  all_of, body_of, IsLast, AreOpen, digesting, digest_done, read_body-open, read_body-last,
}
use equic.Lsquic.Chain.{after, and_then, and_then_nothing}
use equic.Interop.Read.{http_server_interop_on_read, run}

module _ (index_page : Bytes) (regexec : Bytes → Bytes → Option (List Match))
    (md5 : Bytes → Bytes) where
  -- The digest of the reads is that of what they took, in order.
  run-digesting :
      (inputs : List Input) (last : Input) (st_h : StreamCtx) (resp : Resp) (ctx : Bytes)
      → AreOpen inputs
      → IsLast last
      → run index_page regexec md5
          (init_map_regexes req_maps)
          (digesting st_h resp ctx)
          (inputs ++ (last ∷ []))
        ≡ returns
            (digest_done st_h
              (md5_page (md5 (ctx ++ (body_of inputs ++ all_of last.pieces))))
              (ctx ++ (body_of inputs ++ all_of last.pieces)))
            answer
  unfolding run http_server_interop_on_read and_then after
  run-digesting [] last st_h resp ctx o l = rw (read_body-last md5 st_h resp ctx last l) refl
  run-digesting (input ∷ inputs) last st_h resp ctx o l =
      rw
        (
          read_body-open md5 st_h resp ctx input o.0,
          run-digesting inputs last st_h resp (ctx ++ all_of input.pieces) o.1 l,
          append_assoc ctx (all_of input.pieces) (body_of inputs ++ all_of last.pieces),
          append_assoc (all_of input.pieces) (body_of inputs) (all_of last.pieces),
        )
        refl

  -- For every new stream, every request with method GET or POST for /cgi-bin/md5sum.cgi, in capital or
  -- small letters, and a body that arrives in any reads that take bytes, up to the one that sees its
  -- end or takes nothing: the calls of the handler all return, and leave the page with the MD5 sum of
  -- the whole body, with status 200, ready to be written from its beginning.
  pub run-md5sum :
      (st_h : StreamCtx) (req : Req) (path : Bytes) (first last : Input) (inputs : List Input)
      → st_h.headers_read ≡ false
      → first.hset ≡ some req
      → (req.method ≡ get) ⊎ (req.method ≡ post)
      → req.path ≡ some path
      → map to_lower path ≡ codes "/cgi-bin/md5sum.cgi"
      → AreOpen inputs
      → IsLast last
      → run index_page regexec md5
          (init_map_regexes req_maps)
          st_h
          (first ∷ (inputs ++ (last ∷ [])))
        ≡ returns
            (digest_done
              (record st_h { req = some req; resp_status = codes "200" })
              (md5_page (md5 (body_of inputs ++ all_of last.pieces)))
              (body_of inputs ++ all_of last.pieces))
            answer
  unfolding run http_server_interop_on_read and_then after
  run-md5sum st_h req path first last inputs h f g p e o l =
      rw
        (
          h,
          f,
          start-md5sum index_page regexec first.memory st_h req path g p e,
          run-digesting inputs last (record st_h { req = some req; resp_status = codes "200" })
              empty_resp [] o l,
        )
        refl

  -- The first call.
  pub run-start :
      (maps : List ReqMap) (st_h : StreamCtx) (hset : Option Req) (first : Input)
      → st_h.headers_read ≡ false
      → first.hset ≡ hset
      → run index_page regexec md5 maps st_h (first ∷ [])
        ≡ start index_page regexec maps first.memory
            (record st_h { headers_read = true; req = hset })
            hset
  unfolding run http_server_interop_on_read
  run-start maps st_h hset first h f =
      and_then_nothing (http_server_interop_on_read index_page regexec md5 maps st_h first)
      ∙ ap
          (λ read.
            if not read
            then start index_page regexec maps first.memory
                (record st_h { headers_read = true; req = first.hset }) first.hset
            else read_body md5 st_h.interop_handler st_h first)
          h
      ∙ ap
          (λ found.
            start index_page regexec maps first.memory
              (record st_h { headers_read = true; req = found }) found)
          f
