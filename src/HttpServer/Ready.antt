-- ===== src/HttpServer/Ready.antt =====
-- The server at its event loop.
use equic.Prelude.{
  ℕ, ◌≡◌, ◌≢◌, ◌⊎◌, inl, inr, refl, ap, sym, ◌∙◌, arith, Bool, true, false, Option, none, some,
  Bytes, List, [], ◌∷◌, ◌==◌, ◌||◌, if◌then◌else◌,
}
use equic.Xdp.{Xdp}
use equic.Loader.{Results, Run, running, exited, Process, proceed, set_up}
use equic.Loader.Start.{Loads, set_up-Loads}
use equic.Routes.{ReqMap, init_map_regexes}
use equic.FileServer.Types.{Pwritev, off, at_most, unlimited}
use equic.HttpServer.{
  StreamIf, http_server_if, hq_server_if, interop_http_server_if, no_stat, is_dir, Opt, opt_e,
  opt_h, opt_Q, opt_n, opt_w, opt_y, opt_p, opt_r, opt_P, other, Setup, Answers, with_process,
  rooted, set_opt, set_opts, moded, is_off, compatible, add_alpns, prepared, enter,
}

abbrev pub IsHelp : Opt → Type 0
IsHelp opt_h = Unit
IsHelp _ = ⊥

abbrev pub HasHelp : List Opt → Type 0
HasHelp [] = ⊥
HasHelp (opt ∷ opts) = IsHelp opt ⊎ HasHelp opts

module _ (x : Xdp) (results : Results) (p0 : Process x) (maps0 : List ReqMap) where
  open x use {attached, prog_id}

  -- The program of the process is at its interface, and the handler of signals knows it.
  abbrev pub IsAttached : Process x → Type 0
  IsAttached p =
      (attached p.xdp p.equic.if_index ≡ prog_id p.equic.prog_fd)
      × (p.equic_ifindex ≡ p.equic.if_index)
      × (p.equic_prog_id ≡ prog_id p.equic.prog_fd)

  -- Where the quota is kept: by the eBPF program, or by the server.
  abbrev pub KeepsQuota : Setup x → Type 0
  KeepsQuota s =
      ((s.has_ebpf ≡ false) × (s.process ≡ p0)) ⊎ ((s.has_ebpf ≡ true) × IsAttached s.process)

  -- The handlers that the options ask for.
  abbrev pub asked : Bool → StreamIf
  asked lseng_http = if lseng_http then http_server_if else hq_server_if

  abbrev IsChosen : Setup x → Type 0
  IsChosen s = (s.stream_if ≡ asked s.lseng_http) × KeepsQuota s × (s.req_maps ≡ maps0)

  abbrev Sets : List Opt → Run (Setup x) → Type 0
  Sets opts (running s) = IsChosen s
  Sets opts (exited code s) = (code ≢ 0) ⊎ HasHelp opts

  Sets-later : (opt : Opt) (opts : List Opt) (r : Run (Setup x)) → Sets opts r → Sets (opt ∷ opts) r
  Sets-later opt opts (running s) h = h
  Sets-later opt opts (exited code s) (inl h) = inl h
  Sets-later opt opts (exited code s) (inr h) = inr (inr h)

  -- The option -e, with what follows.
  Sets-process :
      (opts : List Opt) (s : Setup x) (r : Run (Process x)) (next : Setup x → Run (Setup x))
      → Loads x results s.process.xdp r
      → ((p : Process x) → IsAttached p → Sets opts (next (record s { process = p })))
      → Sets opts (proceed (with_process x results s r) next)
  unfolding with_process proceed
  Sets-process opts s (running p) next ((free, programs), i, e) h =
      h p (programs p.equic.if_index ∙ ground arith, i, e)
  Sets-process opts s (exited code p) next (e, h) k = inl (omega (arith, e))

  set_opts-Sets :
      (opts : List Opt) (s : Setup x) → IsChosen s → Sets opts (set_opts x results s opts)
  unfolding set_opts set_opt rooted proceed
  set_opts-Sets [] s h = h
  set_opts-Sets (opt_e ∷ opts) s h =
      Sets-process (opt_e ∷ opts) (record s { has_ebpf = true }) (set_up x results s.process)
        (λ s'. set_opts x results s' opts) (set_up-Loads x results s.process)
        (λ p a.
          let s' = record s { has_ebpf = true; process = p } in
          Sets-later opt_e opts (set_opts x results s' opts)
            (set_opts-Sets opts s' (h.0, inr (refl, a), h.2)))
  set_opts-Sets (opt_h ∷ opts) s h = inr (inl tt)
  set_opts-Sets (opt_Q ∷ opts) s h =
      let s' = record s { lseng_http = false; stream_if = hq_server_if } in
      Sets-later opt_Q opts (set_opts x results s' opts) (set_opts-Sets opts s' (refl, h.1, h.2))
  set_opts-Sets (opt_n n ∷ opts) s h =
      let s' = record s { max_conn = n } in
      Sets-later (opt_n n) opts (set_opts x results s' opts) (set_opts-Sets opts s' h)
  set_opts-Sets (opt_w n ∷ opts) s h =
      let s' = record s { s_immediate_write = n } in
      Sets-later (opt_w n) opts (set_opts x results s' opts) (set_opts-Sets opts s' h)
  set_opts-Sets (opt_y n ∷ opts) s h =
      let s' = record s { delay_resp_sec = n } in
      Sets-later (opt_y n) opts (set_opts x results s' opts) (set_opts-Sets opts s' h)
  set_opts-Sets (opt_p path ∷ opts) s h =
      let s' = record s { push_path = some path } in
      Sets-later (opt_p path) opts (set_opts x results s' opts) (set_opts-Sets opts s' h)
  set_opts-Sets (opt_r root no_stat ∷ opts) s h = inl (omega arith)
  set_opts-Sets (opt_r root (is_dir false) ∷ opts) s h = inl (omega arith)
  set_opts-Sets (opt_r root (is_dir true) ∷ opts) s h =
      let s' = record s { document_root = some root } in
      Sets-later (opt_r root (is_dir true)) opts (set_opts x results s' opts)
        (set_opts-Sets opts s' h)
  set_opts-Sets (opt_P n ∷ opts) s h =
      let s' = record s { s_pwritev = n } in
      Sets-later (opt_P n) opts (set_opts x results s' opts) (set_opts-Sets opts s' h)
  set_opts-Sets (other true ∷ opts) s h =
      Sets-later (other true) opts (set_opts x results s opts) (set_opts-Sets opts s h)
  set_opts-Sets (other false ∷ opts) s h = inl (omega arith)

  -- The interop mode is for a server with no document root, which has compiled its table; a server of
  -- files has the handlers that the options ask for.
  abbrev pub IsServing : Setup x → Type 0
  IsServing s =
      ((s.document_root ≡ none)
        × (s.stream_if ≡ interop_http_server_if)
        × (s.req_maps ≡ init_map_regexes maps0))
      ⊎ ((root : Bytes) × (s.document_root ≡ some root)
          × (s.stream_if ≡ asked s.lseng_http)
          × (s.req_maps ≡ maps0))

  abbrev pub IsReady : Setup x → Type 0
  IsReady s = ((s.s_immediate_write ≡ 0) ⊎ (s.s_pwritev ≡ off)) × IsServing s × KeepsQuota s

  -- How the start of the server ends: at the event loop, or before.
  abbrev pub Reaches : List Opt → Run (Setup x) → Type 0
  Reaches opts (running s) = IsReady s
  Reaches opts (exited code s) = (code ≢ 0) ⊎ HasHelp opts

  add_alpns-Reaches :
      (opts : List Opt) (s : Setup x) (next : Setup x → Run (Setup x)) (alpns : List Bool)
      → Reaches opts (next s)
      → Reaches opts (proceed (add_alpns x results s alpns) next)
  unfolding add_alpns proceed
  add_alpns-Reaches opts s next [] h = h
  add_alpns-Reaches opts s next (true ∷ alpns) h = add_alpns-Reaches opts s next alpns h
  add_alpns-Reaches opts s next (false ∷ alpns) h = inl (omega arith)

  if-Reaches :
      (opts : List Opt) (s : Setup x) (b : Bool)
      → IsReady s
      → Reaches opts (if b then running s else exited 1 s)
  if-Reaches opts s true h = h
  if-Reaches opts s false h = inl (omega arith)

  prepared-Reaches :
      (opts : List Opt) (a : Answers x) (s : Setup x)
      → IsReady s
      → Reaches opts (prepared x results a s)
  unfolding prepared
  prepared-Reaches opts a s h =
      add_alpns-Reaches opts s (λ s'. if a.prep_ok then running s' else exited 1 s') a.alpns
        (if-Reaches opts s a.prep_ok h)

  is_off_or : (n : ℕ) (p : Pwritev) → (n == 0 || is_off x results p) ≡ true → (n ≡ 0) ⊎ (p ≡ off)
  unfolding is_off
  is_off_or n off h = inr refl
  is_off_or n (at_most k) h = inl (ground (arith, h))
  is_off_or n unlimited h = inl (ground (arith, h))

  compatible-Reaches :
      (opts : List Opt) (a : Answers x) (s : Setup x) (b : Bool)
      → (s.s_immediate_write == 0 || is_off x results s.s_pwritev) ≡ b
      → IsServing s × KeepsQuota s
      → Reaches opts (proceed (if b then running s else exited 1 s) (prepared x results a))
  unfolding proceed
  compatible-Reaches opts a s true e h =
      prepared-Reaches opts a s (is_off_or s.s_immediate_write s.s_pwritev e, h.0, h.1)
  compatible-Reaches opts a s false e h = inl (omega arith)

  moded-IsServing :
      (s : Setup x) (root : Option Bytes)
      → s.document_root ≡ root
      → IsChosen s
      → IsServing (moded x results s root) × KeepsQuota (moded x results s root)
  unfolding moded
  moded-IsServing s none e h = (inl (e, refl, ap init_map_regexes h.2), h.1)
  moded-IsServing s (some root) e h = (inr (root, e, h.0, h.2), h.1)

  chosen-Reaches :
      (opts : List Opt) (a : Answers x) (r : Run (Setup x))
      → Sets opts r
      → Reaches opts (
          proceed r (λ s.
            proceed
              (compatible x results (moded x results s s.document_root))
              (prepared x results a)))
  unfolding proceed compatible
  chosen-Reaches opts a (running s) h =
      let s' = moded x results s s.document_root in
      compatible-Reaches opts a s' (s'.s_immediate_write == 0 || is_off x results s'.s_pwritev) refl
        (moded-IsServing s s.document_root refl h)
  chosen-Reaches opts a (exited code s) h = h

  -- For any options and answers of the system, from a server that has the handlers of HTTP/3, a
  -- table of services and no eBPF program: if it reaches its event loop, it has not both an
  -- immediate write and preadv; it has the interop handlers, and the patterns of its table
  -- compiled, if it has no document root, and else those of files, or of the hq mode if it was
  -- asked for, and the table as it was; and it counts connections in the map only if the eBPF
  -- program is at its interface and the handler of signals knows it. If it does not reach the
  -- loop, its status is not 0, unless the option -h is among the options.
  pub enter-IsReady :
      (a : Answers x) (s : Setup x) (opts : List Opt)
      → s.stream_if ≡ http_server_if
      → s.lseng_http ≡ true
      → s.has_ebpf ≡ false
      → s.process ≡ p0
      → s.req_maps ≡ maps0
      → Reaches opts (enter x results a s opts)
  unfolding enter
  enter-IsReady a s opts i h b p m =
      chosen-Reaches opts a (set_opts x results s opts)
        (set_opts-Sets opts s (i ∙ sym (ap asked h), inl (b, p), m))
