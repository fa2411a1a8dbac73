-- ===== src/FileServer/Process/Opened.antt =====
-- `process_request` on a file that opens, and on a null pointer for its name.
use equic.Prelude.{◌≡◌, ap, ◌∙◌, true, none, some, [], ◌∷◌}
use equic.Lsquic.{want_write, returns, exits}
use equic.Lsquic.Chain.{after, and_then}
use equic.FileServer.Reader.{Reader}
use equic.FileServer.Types.{Pwritev, off, at_most, unlimited, Options, System, StreamCtx, Input}
use equic.FileServer.Write.Step.{plainly}
use equic.FileServer.Process.{opened, created, open_request, begin_write, process_request}

module _ (r : Reader) (o : Options) (system : System (Reader.Ctx r)) where
  open r use {Ctx}

  abbrev pub later : Options
  later = plainly (record o { s_immediate_write = 0 })

  pub process_request-opened :
      (st_h : StreamCtx Ctx) (ctx : Ctx) (input : Input)
      → system.create_lsquic_reader_ctx st_h.req_path ≡ some ctx
      → process_request r later system st_h input
        ≡ returns (record st_h { reader = some ctx }) (want_write true ∷ [])
  unfolding process_request open_request created begin_write and_then after
  process_request-opened st_h ctx input e =
      ap (λ found. and_then (created r later system st_h found) (begin_write r later system input))
        e

  -- A null pointer names no file.
  module _ (unnamed : system.create_lsquic_reader_ctx none ≡ none)
      (unopened : system.open_file none ≡ none) where
    open_request-null :
        (p : Pwritev) (st_h : StreamCtx Ctx)
        → st_h.req_path ≡ none
        → open_request r o system p st_h ≡ exits 1
    unfolding open_request opened created
    open_request-null off st_h e =
        ap (λ path. created r o system st_h (system.create_lsquic_reader_ctx path)) e
        ∙ ap (created r o system st_h) unnamed
    open_request-null (at_most n) st_h e =
        ap (λ path. opened r o system st_h (system.open_file path)) e
        ∙ ap (opened r o system st_h) unopened
    open_request-null unlimited st_h e =
        ap (λ path. opened r o system st_h (system.open_file path)) e
        ∙ ap (opened r o system st_h) unopened

    pub process_request-null :
        (st_h : StreamCtx Ctx) (input : Input)
        → st_h.req_path ≡ none
        → process_request r o system st_h input ≡ exits 1
    unfolding process_request and_then
    process_request-null st_h input e =
        ap (λ outcome. and_then outcome (begin_write r o system input))
          (open_request-null o.s_pwritev st_h e)
