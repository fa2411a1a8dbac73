-- ===== src/HttpServer.antt =====
-- http_server.c, `main`: the options, the choice of the handlers, and the way to the event loop.
pub mod Ready
pub mod End
mod Tests
use equic.Prelude.{
  ℕ, Bool, true, false, ◌||◌, Option, none, some, List, [], ◌∷◌, Bytes, ◌==◌, if◌then◌else◌,
}
use equic.Xdp.{Xdp}
use equic.Loader.{Results, Run, running, exited, Process, proceed, set_up}
use equic.Routes.{ReqMap, init_map_regexes, free_map_regexes}
use equic.FileServer.Types.{Pwritev, off}

-- The handlers of streams: http_server_if, hq_server_if or interop_http_server_if.
pub data StreamIf : Type 0 where
  http_server_if hq_server_if interop_http_server_if : StreamIf

-- `stat` of a name: it fails, or tells whether it is a directory.
pub data Stat : Type 0 where
  no_stat : Stat
  is_dir : Bool → Stat

-- An option as getopt gives it, with what atoi or strtoull makes of a number, what stat says of a
-- directory, and whether prog_set_opt takes an option that `main` does not know.
pub data Opt : Type 0 where
  opt_e opt_h opt_Q : Opt
  opt_n opt_w opt_y : ℕ → Opt
  opt_p : Bytes → Opt
  opt_r : Bytes → Stat → Opt
  opt_P : Pwritev → Opt
  other : Bool → Opt

module _ (x : Xdp) where
  -- The members of `struct server_ctx` and of `prog` that `main` sets, and the static variables.
  pub record Setup : Type 0 where
    pub has_ebpf : Bool
    pub max_conn : ℕ
    pub push_path : Option Bytes
    pub document_root : Option Bytes
    pub s_immediate_write : ℕ
    pub s_pwritev : Pwritev
    pub delay_resp_sec : ℕ
    pub lseng_http : Bool
    pub stream_if : StreamIf
    pub req_maps : List ReqMap
    pub process : Process x

  -- What the calls of lsquic's program helpers give: the results of add_alpn for the names of HTTP/3,
  -- and of prog_prep and prog_run.
  pub record Answers : Type 0 where
    pub alpns : List Bool
    pub prep_ok : Bool
    pub run_ok : Bool

  module _ (results : Results) where
    pub with_process : Setup → Run (Process x) → Run Setup
    with_process s (running p) = running (record s { process = p })
    with_process s (exited code p) = exited code (record s { process = p })

    pub rooted : Setup → Bytes → Stat → Run Setup
    rooted s root no_stat = exited 2 s
    rooted s root (is_dir false) = exited 2 s
    rooted s root (is_dir true) = running (record s { document_root = some root })

    pub set_opt : Setup → Opt → Run Setup
    unfolding with_process rooted
    set_opt s opt_e = with_process (record s { has_ebpf = true }) (set_up x results s.process)
    set_opt s (opt_n n) = running (record s { max_conn = n })
    set_opt s (opt_p path) = running (record s { push_path = some path })
    set_opt s (opt_r root stat) = rooted s root stat
    set_opt s (opt_w n) = running (record s { s_immediate_write = n })
    set_opt s (opt_P n) = running (record s { s_pwritev = n })
    set_opt s (opt_y n) = running (record s { delay_resp_sec = n })
    set_opt s opt_h = exited 0 s
    set_opt s opt_Q = running (record s { lseng_http = false; stream_if = hq_server_if })
    set_opt s (other true) = running s
    set_opt s (other false) = exited 1 s

    pub set_opts : Setup → List Opt → Run Setup
    unfolding set_opt proceed
    set_opts s [] = running s
    set_opts s (opt ∷ opts) = proceed (set_opt s opt) (λ s'. set_opts s' opts)

    -- Without a document root the server starts in the interop mode.
    pub moded : Setup → Option Bytes → Setup
    moded s none = record s {
      stream_if = interop_http_server_if;
      req_maps = init_map_regexes s.req_maps;
    }
    moded s (some root) = s

    is_off : Pwritev → Bool
    is_off off = true
    is_off _ = false

    pub compatible : Setup → Run Setup
    unfolding is_off
    compatible s = if s.s_immediate_write == 0 || is_off s.s_pwritev then running s else exited 1 s

    pub add_alpns : Setup → List Bool → Run Setup
    add_alpns s [] = running s
    add_alpns s (true ∷ alpns) = add_alpns s alpns
    add_alpns s (false ∷ alpns) = exited 1 s

    pub prepared : Answers → Setup → Run Setup
    unfolding add_alpns
    prepared a s =
        proceed (add_alpns s a.alpns) (λ s'. if a.prep_ok then running s' else exited 1 s')

    -- Up to the event loop.
    pub enter : Answers → Setup → List Opt → Run Setup
    unfolding set_opts moded compatible prepared proceed
    enter a s opts =
        proceed (set_opts s opts)
          (λ s1. proceed (compatible (moded s1 s1.document_root)) (prepared a))

    freed : Setup → Option Bytes → Setup
    freed s none = record s { req_maps = free_map_regexes s.req_maps }
    freed s (some root) = s

    -- After the event loop.
    leave : Answers → Setup → Run Setup
    unfolding freed
    leave a s = exited (if a.run_ok then 0 else 1) (freed s s.document_root)

    pub http_main : Answers → Setup → List Opt → Run Setup
    unfolding enter leave proceed
    http_main a s opts = proceed (enter a s opts) (leave a)
