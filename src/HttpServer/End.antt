-- ===== src/HttpServer/End.antt =====
-- The end of `main` of http_server.c: after the event loop the table of services is as it was.
use equic.Prelude.{
  ◌≡◌, ◌≢◌, ◌⊎◌, inl, inr, refl, ap, ◌∙◌, true, false, Option, none, some, Bytes, List,
  if◌then◌else◌,
}
use equic.Xdp.{Xdp}
use equic.Loader.{Results, Run, running, exited, Process, proceed}
use equic.Routes.{ReqMap, free_map_regexes}
use equic.Routes.First.{AreFresh, free_map_regexes-init_map_regexes}
use equic.HttpServer.{http_server_if, Opt, Setup, Answers, enter, freed, leave, http_main}
use equic.HttpServer.Ready.{IsServing, HasHelp, Reaches, enter-IsReady}

module _ (x : Xdp) (results : Results) (p0 : Process x) (maps0 : List ReqMap) where
  -- From the start of the server, as it ended, to the end of the program: a server that reached its
  -- event loop ends with the status that the loop gives, and the table as it was; one that did not has
  -- ended there, with another status than 0 or for the option -h.
  abbrev pub HasEnded : Answers x → List Opt → Run (Setup x) → Run (Setup x) → Type 0
  HasEnded a opts (running s) ended =
      (s' : Setup x) × (ended ≡ exited (if a.run_ok then 0 else 1) s') × (s'.req_maps ≡ maps0)
  HasEnded a opts (exited code s) ended = (ended ≡ exited code s) × ((code ≢ 0) ⊎ HasHelp opts)

  freed-maps :
      (s : Setup x) (root : Option Bytes)
      → AreFresh maps0
      → s.document_root ≡ root
      → IsServing x results p0 maps0 s
      → (freed x results s root).req_maps ≡ maps0
  unfolding freed
  freed-maps s none fresh e (inl (r, i, m)) =
      ap free_map_regexes m ∙ free_map_regexes-init_map_regexes maps0 fresh
  freed-maps s (some root) fresh e (inl (r, i, m)) = absurd (cc (e, r))
  freed-maps s none fresh e (inr (root, r, i, m)) = absurd (cc (e, r))
  freed-maps s (some root') fresh e (inr (root, r, i, m)) = m

  leave-HasEnded :
      (a : Answers x) (opts : List Opt) (r : Run (Setup x))
      → AreFresh maps0
      → Reaches x results p0 maps0 opts r
      → HasEnded a opts r (proceed r (leave x results a))
  unfolding leave proceed
  leave-HasEnded a opts (running s) fresh h =
      (freed x results s s.document_root, refl, freed-maps s s.document_root fresh refl h.1)
  leave-HasEnded a opts (exited code s) fresh h = (refl, h)

  -- For any options and answers of the system, from a server that has the handlers of HTTP/3, a
  -- table of services with no pattern compiled and no eBPF program: `main` ends; if it reaches its
  -- event loop, it ends with the status that the loop gives, and whatever that is, the table is as
  -- it was, so no pattern is left compiled; and if it does not, it ends with another status than
  -- 0, or the option -h is among the options.
  pub http_main-HasEnded :
      (a : Answers x) (s : Setup x) (opts : List Opt)
      → s.stream_if ≡ http_server_if
      → s.lseng_http ≡ true
      → s.has_ebpf ≡ false
      → s.process ≡ p0
      → s.req_maps ≡ maps0
      → AreFresh maps0
      → HasEnded a opts (enter x results a s opts) (http_main x results a s opts)
  unfolding http_main
  http_main-HasEnded a s opts i h b p m fresh =
      leave-HasEnded a opts (enter x results a s opts) fresh
        (enter-IsReady x results p0 maps0 a s opts i h b p m)
