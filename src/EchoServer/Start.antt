-- ===== src/EchoServer/Start.antt =====
-- echo_server.c, `main`: the loading of the eBPF program and the options, up to the event loop and
-- after it.
use equic.Prelude.{ℕ, ◌≡◌, ◌∙◌, arith, Bool, true, false, List, [], ◌∷◌, if◌then◌else◌}
use equic.Xdp.{Xdp}
use equic.Loader.{Results, Run, running, exited, Process, proceed, set_up}
use equic.Loader.Start.{Loads, set_up-Loads}

-- An option as getopt gives it, with what atoi makes of a number, and whether prog_set_opt takes an
-- option that `main` does not know.
pub data EchoOpt : Type 0 where
  echo_n : ℕ → EchoOpt
  echo_h : EchoOpt
  unknown : Bool → EchoOpt

module _ (x : Xdp) (results : Results) where
  open x use {attached, prog_id}

  -- The member of `struct echo_server_ctx` that the options set, and what the loader keeps.
  pub record EchoSetup : Type 0 where
    pub n_conn : ℕ
    pub process : Process x

  started : EchoSetup → Run (Process x) → Run EchoSetup
  started s (running p) = running (record s { process = p })
  started s (exited code p) = exited code (record s { process = p })

  echo_opt : EchoSetup → EchoOpt → Run EchoSetup
  echo_opt s (echo_n n) = running (record s { n_conn = n })
  echo_opt s echo_h = exited 0 s
  echo_opt s (unknown true) = running s
  echo_opt s (unknown false) = exited 1 s

  echo_opts : EchoSetup → List EchoOpt → Run EchoSetup
  unfolding echo_opt proceed
  echo_opts s [] = running s
  echo_opts s (opt ∷ opts) = proceed (echo_opt s opt) (λ s'. echo_opts s' opts)

  -- With the success of prog_prep.
  pub echo_enter : Bool → EchoSetup → List EchoOpt → Run EchoSetup
  unfolding started echo_opts proceed
  echo_enter prep_ok s opts =
      proceed (started s (set_up x results s.process))
        (λ s1. proceed (echo_opts s1 opts) (λ s2. if prep_ok then running s2 else exited 1 s2))

  -- With the result of prog_run.
  pub echo_main : Bool → Bool → EchoSetup → List EchoOpt → Run EchoSetup
  unfolding echo_enter proceed
  echo_main prep_ok run_ok s opts =
      proceed (echo_enter prep_ok s opts) (λ s'. exited (if run_ok then 0 else 1) s')

  -- At the event loop the program of the server is at its interface, and the handler of signals knows
  -- it.
  abbrev pub IsLoaded : Run EchoSetup → Type 0
  IsLoaded (running s) =
      (attached s.process.xdp s.process.equic.if_index ≡ prog_id s.process.equic.prog_fd)
      × (s.process.equic_ifindex ≡ s.process.equic.if_index)
      × (s.process.equic_prog_id ≡ prog_id s.process.equic.prog_fd)
  IsLoaded (exited code s) = Unit

  prep-IsLoaded :
      (b : Bool) (s : EchoSetup)
      → IsLoaded (running s)
      → IsLoaded (if b then running s else exited 1 s)
  prep-IsLoaded true s h = h
  prep-IsLoaded false s h = tt

  echo_opts-IsLoaded :
      (b : Bool) (opts : List EchoOpt) (s : EchoSetup)
      → IsLoaded (running s)
      → IsLoaded (proceed (echo_opts s opts) (λ s2. if b then running s2 else exited 1 s2))
  unfolding echo_opts echo_opt proceed
  echo_opts-IsLoaded b [] s h = prep-IsLoaded b s h
  echo_opts-IsLoaded b (echo_n n ∷ opts) s h = echo_opts-IsLoaded b opts (record s { n_conn = n }) h
  echo_opts-IsLoaded b (echo_h ∷ opts) s h = tt
  echo_opts-IsLoaded b (unknown true ∷ opts) s h = echo_opts-IsLoaded b opts s h
  echo_opts-IsLoaded b (unknown false ∷ opts) s h = tt

  started-IsLoaded :
      (b : Bool) (opts : List EchoOpt) (s : EchoSetup) (r : Run (Process x))
      → Loads x results s.process.xdp r
      → IsLoaded (
          proceed
            (started s r)
            (λ s1. proceed (echo_opts s1 opts) (λ s2. if b then running s2 else exited 1 s2)))
  unfolding started proceed
  started-IsLoaded b opts s (running p) ((free, programs), i, e) =
      echo_opts-IsLoaded b opts (record s { process = p })
        (programs p.equic.if_index ∙ ground arith, i, e)
  started-IsLoaded b opts s (exited code p) h = tt

  -- Whatever the options and the answers of the system: if the echo server reaches its event loop, the
  -- eBPF program is at its interface, and the handler of signals knows it.
  pub echo_enter-IsLoaded :
      (prep_ok : Bool) (s : EchoSetup) (opts : List EchoOpt) → IsLoaded (echo_enter prep_ok s opts)
  unfolding echo_enter
  echo_enter-IsLoaded prep_ok s opts =
      started-IsLoaded prep_ok opts s (set_up x results s.process)
        (set_up-Loads x results s.process)
