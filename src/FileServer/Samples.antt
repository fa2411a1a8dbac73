-- ===== src/FileServer/Samples.antt =====
-- A reader over bytes in memory, and surroundings that can be run.
use equic.Prelude.{
  ℕ, refl, Option, none, some, List, [], ◌∷◌, Bytes, codes, length, take, drop, true, false,
  same_bytes, if◌then◌else◌,
}
use equic.Routes.{Match}
use equic.FileServer.Reader.{Reader}
use equic.FileServer.Types.{System, StreamCtx, Options, Input, off}

abbrev pub bytes_reader : Reader
bytes_reader = record {
  Ctx = Bytes;
  IsValid = λ bytes. Unit {0};
  lsqr_size = λ bytes. length bytes;
  lsqr_read = λ bytes count. (take count bytes, drop count bytes);
  content = λ bytes. bytes;
  lsqr_size-content = λ bytes v. refl;
  lsqr_read-content = λ bytes count v. refl;
  content-lsqr_read = λ bytes count v. refl;
  lsqr_read-IsValid = λ bytes count v. tt;
}

abbrev pub text : Bytes
text = codes "<html>"

-- The only file is /www/a.html, with descriptor 5; the only pattern match is from 4 to 11.
abbrev pub contents : Option Bytes → Option Bytes
contents none = none
contents (some name) = if same_bytes name (codes "/www/a.html") then some text else none

abbrev pub descriptor : Option Bytes → Option ℕ
descriptor none = none
descriptor (some name) = if same_bytes name (codes "/www/a.html") then some 5 else none

abbrev pub matches_of : Bytes → Option (List Match)
matches_of [] = none
matches_of (c ∷ cs) = if same_bytes cs [] then none else some (some (0, 21) ∷ some (4, 10) ∷ [])

abbrev pub system : System Bytes
system = record {
  open_file = descriptor;
  fstat = λ fd. some 6;
  create_lsquic_reader_ctx = contents;
  preadv = λ fd len offset. some (take len (drop offset text));
  regexec = λ pattern request. matches_of request;
}

abbrev pub options : Options
options = record {
  document_root = codes "/www";
  push_path = none;
  delay_resp_sec = 0;
  s_immediate_write = 0;
  s_pwritev = off;
}

-- http_server_on_new_stream: `calloc` makes every field 0.
abbrev pub new_stream : StreamCtx Bytes
new_stream = record {
  req_fh = false;
  req_buf = [];
  req_filename = none;
  req_path = none;
  headers_sent = false;
  delayed = false;
  reader = none;
  file_fd = 0;
  resume_resp = false;
  written = 0;
  file_size = 0;
}

-- What lsquic gives to a call of a writing handler that reads for buffers of these sizes.
abbrev pub writing : List ℕ → ℕ → Input
writing counts nw = record {
  headers_ok = true;
  event_ok = true;
  iov = nw;
  pwritev_nw = some nw;
  counts = counts;
  writef_nw = some nw;
  goaway = false;
}
