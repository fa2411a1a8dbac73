-- ===== src/Lib.antt =====
-- eQUIC limits the QUIC connections that one client may have open. The program src/equic_kern.c runs
-- in the kernel, at the XDP hook of a network interface, and drops the UDP packets of a client whose
-- counter has reached QUIC_QUOTA_LIMIT. The counters are a BPF map, which a QUIC server in user space
-- keeps through the library src/equic_user.c: it adds one to the counter of a client's IPv4 address
-- when a connection opens and takes one off when it closes. Two servers use it, both built on lsquic:
-- echo_server.c, which returns lines, and http_server.c, which serves files or, in its interop mode,
-- a table of services. Without the kernel program http_server.c keeps a quota of its own, by the last
-- octet of the address.
--
-- The files:
--   Prelude   lists, text and numbers that all files share: Prelude/Tests for Boolean tests,
--             Prelude/Lists and Prelude/Slices, and Prelude/Text for decimal numbers and strings.
--   Net       sizes of packet headers, addresses, and the 32-bit word of an address.
--   Kern      src/equic_kern.c, `udp_quota`, over the bytes of a packet and the counters as a
--             function from keys to values. Kern/Verdict says when it drops and when it aborts.
--   BpfMap    a BPF map as the programs use it: an interface of the operations and their documented
--             laws. BpfMap/Table is an instance that can be run.
--   Counters  src/equic_user.c, `equic_inc_counter` and `equic_dec_counter`. Counters/Laws is about
--             one call, Counters/History about any sequence of opens and closes, against a tally of
--             the open connections; Counters/Full about a full map; Counters/Quota joins the
--             counters with the hook.
--   Octet     http_server.c, `extract_last_octet`, with Octet/Digits on decimal numbers and
--             Octet/Extract on whole addresses.
--   UserQuota http_server.c, `inc_quota`, `dec_quota` and `reached_quota_limit`.
--   Lsquic    the calls that handlers make of lsquic, and how a handler ends; Lsquic/Chain is about
--             handlers one after the other, and Lsquic/Peer about what the peer of a stream gets.
--   Server    http_server.c, `http_server_on_new_conn`, `http_server_on_conn_closed` and
--             `request_counter`. A server takes steps, one for each event; Server/Step is about one,
--             Server/Invariant, Server/Totals, Server/Limit and Server/Bypass about sequences.
--   Echo      echo_server.c, the handlers of a stream. Echo/Stream is a stream as lsquic drives it,
--             with Echo/Stream/Bounds on memory and Echo/Stream/Lines on what comes back.
--   EchoServer echo_server.c, the handlers of connections, with EchoServer/Histories on sequences;
--             a close reads the context that it has freed, and whether that still holds its pointer
--             to the server is an argument. EchoServer/Start is its `main`.
--   GenFile   http_server.c, `idle_read`, `idle_size` and `my_interop_preadv`, which make a file of a
--             repeated text: GenFile/Cyclic is the text without end, GenFile/Read and GenFile/Stuck
--             are about the loop, and GenFile/Size models the size that a request asks for.
--   Request   http_server.c, `struct req`, `new_req` and the callbacks of a header set, with
--             Request/Serial, Request/Pseudo and Request/Decode on whole sequences of headers.
--   Routes    http_server.c, `req_maps`, `init_map_regexes`, `free_map_regexes` and `find_handler`,
--             with Routes/First on which entry is found.
--   Interop   http_server.c, `http_server_interop_on_read`: Interop/Types has the state of a stream,
--             Interop/Start its first call, Interop/Rest the later ones and Interop/Read the handler
--             and its sequences of calls. Interop/Write is `http_server_interop_on_write` with
--             `idle_on_write` and `send_headers2`: Interop/Write/Whole is about whole answers and
--             Interop/Write/Idle and Interop/Write/Generated about generated files. Interop/Served is
--             about whole requests and their answers, and Interop/Session about any sequence of reads
--             and writes on a stream; its invariant is kept in the modules Session of Interop/Start,
--             Interop/Rest, Interop/Read and Interop/Write.
--   FileServer http_server.c, the service of files. FileServer/Types has the state of a stream and
--             the options; FileServer/Reader is the interface of a reader, with the capped reader of an
--             immediate write in FileServer/Reader/Capped; FileServer/ContentType models `ends_with`
--             and `select_content_type`. FileServer/Read is `http_server_on_read` with `parse_request`
--             and `push_promise`, FileServer/Process `process_request`, and FileServer/Write
--             `http_server_on_write` with `send_headers`, `bytes_left` and the functions for preadv.
--             In each, the child modules are about whole requests or whole files. FileServer/Hq is the
--             hq mode, `hq_server_on_read` and `hq_server_on_write`. FileServer/Life is the beginning
--             and the end of a stream, and the end of a delay. FileServer/Samples has the reader
--             and the surroundings that the tests use.
--   Xdp       the XDP hooks of the network interfaces: an interface, with the instance Xdp/Table.
--   Loader    src/equic_user.c, `equic_get_interface`, `equic_read_object`, `equic_load` and the
--             handlers of signals, and `main` of src/equic.c. Loader/Start is about how loading ends,
--             and Loader/Signals about a signal at any of its moments.
--   HttpServer http_server.c, `main`: options and the choice of the handlers. HttpServer/Ready is about
--             the server at its event loop, and HttpServer/End about the way out of `main`.
--   Network   the whole: the hook of src/equic_kern.c and the connections of http_server.c over one map,
--             with packets and events in any order. Network/Verdicts compares it with a tally of the
--             open connections; Network/Quota is about the quota itself.
--
-- State is passed on explicitly. A handler takes the state and what lsquic or libc gives back, and
-- returns an `Outcome`: the new state with the calls it makes, a call of `exit`, or a fault, which
-- stands for a failed assertion, a null pointer or an access outside a buffer. A sequence of events
-- or calls is a list, and a step is one whole handler: the servers run one event loop. Integers are
-- natural numbers with the wrap-around of their type written out: 32 bits for counters, `unsigned`
-- and the arithmetic of `int` (two's complement), 64 bits for `size_t`. Bytes are natural numbers,
-- and text ends where a list ends, or at a NUL where the source looks for one.
--
-- The only fuel is that of the loop of `idle_read`. It is one more than the size of the buffer: each
-- round writes at least a byte, unless the size is a multiple of 2 ^ 32.
--
-- Code outside the repository is a parameter: lsquic, the BPF maps, `regexec`, MD5, memory from
-- `malloc`, `open`, `fstat` and `preadv`, the reader of a file, which is in test_common.c of lsquic,
-- and the long texts INDEX_HTML and `on_being_idle`. `inet_ntoa`, `strncpy`, `atoi`, `strtol` and
-- `strndup` are written out as far as the source uses them. Of the messages of the logger only those
-- are modelled that tell the verdict on a body; other messages, traces and timings are left out.
--
-- Not modelled: `http_server_on_goaway`, which sets a flag that the writing handlers take as an
-- input; the freeing of memory; printing, traces and timings.
pub mod Prelude
pub mod Net
pub mod Kern
pub mod BpfMap
pub mod Counters
pub mod Octet
pub mod UserQuota
pub mod Lsquic
pub mod Server
pub mod Echo
pub mod EchoServer
pub mod GenFile
pub mod Request
pub mod Routes
pub mod Interop
pub mod FileServer
pub mod Xdp
pub mod Loader
pub mod HttpServer
pub mod Network
