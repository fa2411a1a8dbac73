-- ===== src/HttpServer/Tests.antt =====
-- The options -e -r /www -Q hq-29.
use equic.Prelude.{refl, true, false, none, some, List, [], ◌∷◌, codes}
use equic.Xdp.Table.{table}
use equic.Loader.{Results, Process}
use equic.Routes.{req_maps}
use equic.FileServer.Types.{off}
use equic.HttpServer.{
  http_server_if, is_dir, Opt, opt_e, opt_r, opt_Q, Setup, Answers, enter, http_main,
}
use equic.HttpServer.End.{HasEnded, http_main-HasEnded}
use equic.HttpServer.Ready.{Reaches, enter-IsReady}

abbrev results : Results
results = record {
  if_nametoindex = λ if_name. 3;
  bpf_prog_load_xattr = λ path. some (7, some 8);
  info_ok = true;
}

abbrev begun : Process table
begun = record {
  equic = record { if_index = 0; prog_fd = 0; counters_map_fd = 0 };
  equic_ifindex = 0;
  equic_prog_id = 0;
  xdp = λ i. 0;
}

abbrev setup : Setup table
setup = record {
  has_ebpf = false;
  max_conn = 0;
  push_path = none;
  document_root = none;
  s_immediate_write = 0;
  s_pwritev = off;
  delay_resp_sec = 0;
  lseng_http = true;
  stream_if = http_server_if;
  req_maps = req_maps;
  process = begun;
}

abbrev answers : Answers table
answers = record { alpns = true ∷ []; prep_ok = true; run_ok = true }

abbrev opts : List Opt
opts = opt_e ∷ opt_r (codes "/www") (is_dir true) ∷ opt_Q ∷ []

enter-IsReady_example :
    Reaches table results begun req_maps opts (enter table results answers setup opts)
enter-IsReady_example =
    enter-IsReady table results begun req_maps answers setup opts refl refl refl refl refl

http_main-HasEnded_example :
    HasEnded table results begun req_maps answers opts
      (enter table results answers setup opts)
      (http_main table results answers setup opts)
http_main-HasEnded_example =
    http_main-HasEnded table results begun req_maps answers setup opts refl refl refl refl refl (
      refl,
      (refl, (refl, (refl, (refl, (refl, (refl, (refl, (refl, (refl, (refl, (refl, tt))))))))))),
    )
