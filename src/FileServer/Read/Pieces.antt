-- ===== src/FileServer/Read/Pieces.antt =====
-- A request that arrives in pieces.
use mathlib.Core.List.{append_assoc, append-nil}
use equic.Prelude.{
  ℕ, ◌≡◌, refl, ap, sym, ◌∙◌, true, false, List, [], ◌∷◌, ◌++◌, Bytes, if◌then◌else◌,
}
use equic.Lsquic.{Outcome, returns}
use equic.Lsquic.Chain.{and_then, after_nothing, and_then_nothing}
use equic.Interop.Types.{Body, got}
use equic.FileServer.Reader.{Reader}
use equic.FileServer.Types.{Options, System, StreamCtx}
use equic.FileServer.Read.{
  Arrival, end_of_request, on_read_body, http_server_on_read_pushed, http_server_on_read,
}

-- Arrivals that bring these bytes, at least one each, on a stream that is not pushed.
abbrev pub Brings : List Arrival → Bytes → Type 0
Brings [] text = text ≡ []
Brings (a ∷ as_) text =
    (c : ℕ) × (cs rest : Bytes) × (a.is_pushed ≡ false)
    × (a.body ≡ got (c ∷ cs))
    × (text ≡ (c ∷ cs) ++ rest)
    × Brings as_ rest

-- The end of such a stream.
abbrev pub IsEnd : Arrival → Type 0
IsEnd a = (a.is_pushed ≡ false) × (a.body ≡ got [])

module _ (r : Reader) (o : Options) (system : System (Reader.Ctx r)) where
  open r use {Ctx}

  -- The calls of the handler for a stream, one after the other.
  pub run : StreamCtx Ctx → List Arrival → Outcome (StreamCtx Ctx)
  unfolding http_server_on_read
  run st_h [] = returns st_h []
  run st_h (a ∷ as_) = and_then (http_server_on_read r o system st_h a) (λ st_h'. run st_h' as_)

  -- A stream that has read some of its request.
  abbrev pub reading : StreamCtx Ctx → Bytes → StreamCtx Ctx
  reading st_h text = record st_h { req_fh = true; req_buf = text }

  on_read-body :
      (st_h : StreamCtx Ctx) (text : Bytes) (a : Arrival) (body : Body)
      → a.is_pushed ≡ false
      → a.body ≡ body
      → http_server_on_read r o system (reading st_h text) a
        ≡ on_read_body r o system a (reading st_h text) body
  unfolding http_server_on_read
  on_read-body st_h text a body p b =
      ap
        (λ is_pushed.
          if is_pushed
          then http_server_on_read_pushed r o system (reading st_h text) a
          else on_read_body r o system a (reading st_h text) a.body)
        p
      ∙ ap (on_read_body r o system a (reading st_h text)) b

  -- The first call opens the memory stream.
  on_read-first :
      (st_h : StreamCtx Ctx) (a : Arrival)
      → st_h.req_fh ≡ false
      → a.is_pushed ≡ false
      → http_server_on_read r o system st_h a ≡ http_server_on_read r o system (reading st_h []) a
  unfolding http_server_on_read
  on_read-first st_h a f p =
      ap
        (λ is_pushed.
          if is_pushed
          then http_server_on_read_pushed r o system st_h a
          else on_read_body r o system a (if st_h.req_fh then st_h else reading st_h []) a.body)
        p
      ∙ ap (λ opened. on_read_body r o system a (if opened then st_h else reading st_h []) a.body) f
      ∙ sym (on_read-body st_h [] a a.body p refl)

  run-reading :
      (as_ : List Arrival) (last : Arrival) (st_h : StreamCtx Ctx) (before text : Bytes)
      → Brings as_ text
      → IsEnd last
      → run (reading st_h before) (as_ ++ (last ∷ []))
        ≡ end_of_request r o system last (reading st_h (before ++ text))
  unfolding run on_read_body and_then
  run-reading [] last st_h before text t (p, b) =
      ap (λ outcome. and_then outcome (λ st_h'. returns st_h' []))
        (on_read-body st_h before last (got []) p b)
      ∙ and_then_nothing (end_of_request r o system last (reading st_h before))
      ∙ ap (λ bytes. end_of_request r o system last (reading st_h bytes))
          (sym (append-nil before) ∙ ap (λ more. before ++ more) (sym t))
  run-reading (a ∷ as_) last st_h before text (c, cs, rest, p, b, split, t) e =
      ap (λ outcome. and_then outcome (λ st_h'. run st_h' (as_ ++ (last ∷ []))))
        (on_read-body st_h before a (got (c ∷ cs)) p b)
      ∙ after_nothing (run (reading st_h (before ++ (c ∷ cs))) (as_ ++ (last ∷ [])))
      ∙ run-reading as_ last st_h (before ++ (c ∷ cs)) rest t e
      ∙ ap (λ bytes. end_of_request r o system last (reading st_h bytes))
          (append_assoc before (c ∷ cs) rest ∙ ap (λ more. before ++ more) (sym split))

  run_first :
      (a : Arrival) (as_ : List Arrival) (st_h : StreamCtx Ctx)
      → st_h.req_fh ≡ false
      → a.is_pushed ≡ false
      → run st_h (a ∷ as_) ≡ run (reading st_h []) (a ∷ as_)
  unfolding run
  run_first a as_ st_h f p =
      ap (λ outcome. and_then outcome (λ st_h'. run st_h' as_)) (on_read-first st_h a f p)

  -- However a request is cut into reads, the calls of the handler for a new stream do what the end of
  -- the stream does with the whole request.
  pub run-pieces :
      (as_ : List Arrival) (last : Arrival) (st_h : StreamCtx Ctx) (text : Bytes)
      → st_h.req_fh ≡ false
      → Brings as_ text
      → IsEnd last
      → run st_h (as_ ++ (last ∷ [])) ≡ end_of_request r o system last (reading st_h text)
  run-pieces [] last st_h text f t e =
      run_first last [] st_h f e.0 ∙ run-reading [] last st_h [] text t e
  run-pieces (a ∷ as_) last st_h text f t e =
      run_first a (as_ ++ (last ∷ [])) st_h f t.3 ∙ run-reading (a ∷ as_) last st_h [] text t e
