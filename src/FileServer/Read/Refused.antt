-- ===== src/FileServer/Read/Refused.antt =====
-- Requests in which the pattern finds no path.
use mathlib.Core.Path.{subst}
use equic.Prelude.{◌≡◌, sym, true, false, Option, none, some, List, [], ◌∷◌, ◌++◌, Bytes}
use equic.Lsquic.{shutdown, Outcome, returns, exits, faults}
use equic.Lsquic.Chain.{after, and_then}
use equic.FileServer.Reader.{Reader}
use equic.FileServer.Types.{Options, System, StreamCtx}
use equic.FileServer.Process.Opened.{process_request-null}
use equic.FileServer.Read.{
  Arrival, request_pattern, parsed, process_pushing, parse_request, processed, process_parsed,
  end_of_request,
}
use equic.FileServer.Read.Served.{c_text}
use equic.FileServer.Read.Pieces.{Brings, IsEnd, run, run-pieces}

-- The handler does not return.
abbrev pub IsDead {ℓ} : {S : Type ℓ} → Outcome S → Type 0
IsDead (returns s calls) = ⊥
IsDead _ = Unit

module _ (r : Reader) (o : Options) (system : System (Reader.Ctx r)) where
  open r use {Ctx}

  process_parsed-null :
      (push_path : Option Bytes) (st_h : StreamCtx Ctx) (last : Arrival)
      → system.create_lsquic_reader_ctx none ≡ none
      → system.open_file none ≡ none
      → st_h.req_path ≡ none
      → IsDead (process_parsed r o system last push_path st_h)
  unfolding process_parsed processed process_pushing and_then
  process_parsed-null none st_h last c n e =
      subst
        (λ (outcome : Outcome (StreamCtx Ctx)).
          IsDead (and_then outcome (λ st_h'. returns st_h' (shutdown 0 ∷ []))))
        (sym (process_request-null r o system c n st_h last.input e)) tt
  process_parsed-null (some push_path) st_h last c n e =
      subst (λ path. IsDead (process_pushing r o system last push_path st_h path)) (sym e) tt

  IsDead-after_nothing :
      (outcome : Outcome (StreamCtx Ctx)) → IsDead outcome → IsDead (after [] outcome)
  unfolding after
  IsDead-after_nothing (returns st_h calls) h = h
  IsDead-after_nothing (exits code) h = tt
  IsDead-after_nothing faults h = tt

  -- Whatever the options, if a null pointer names no file: every new stream whose request, in any
  -- pieces, has no path that the pattern finds ends the server, by a call of exit or a fault.
  pub run-refused :
      (as_ : List Arrival) (last : Arrival) (st_h : StreamCtx Ctx) (text : Bytes)
      → system.create_lsquic_reader_ctx none ≡ none
      → system.open_file none ≡ none
      → st_h.req_fh ≡ false
      → st_h.req_path ≡ none
      → Brings as_ text
      → IsEnd last
      → system.regexec request_pattern (c_text text) ≡ none
      → IsDead (run r o system st_h (as_ ++ (last ∷ [])))
  unfolding end_of_request parse_request and_then
  run-refused as_ last st_h text c n f p b e x =
      let begun = record st_h { req_fh = true; req_buf = text ++ (0 ∷ []) } in
      subst (λ (outcome : Outcome (StreamCtx Ctx)). IsDead outcome)
        (sym (run-pieces r o system as_ last st_h text f b e))
        (subst
          (λ found.
            IsDead (
              and_then (parsed r o system begun found)
                (process_parsed r o system last o.push_path)))
          (sym x)
          (IsDead-after_nothing (process_parsed r o system last o.push_path begun)
            (process_parsed-null o.push_path begun last c n p)))
