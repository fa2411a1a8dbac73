-- ===== src/Echo/Stream/Tests.antt =====
-- A stream of the echo server that gets two lines.
use equic.Prelude.{◌≡◌, refl, arith, true, false, some, List, [], ◌∷◌, Bytes, replicate, codes, map}
use equic.Lsquic.{Call}
use equic.Echo.{ConnCtx, byte, eof, error, echo_server_on_read}
use equic.Echo.Stream.{Stream, Callback, on_read, on_write, deliver, run, written}
use equic.Echo.Stream.Lines.{Holds, session, run-session}

abbrev conn_ctxs : List ConnCtx
conn_ctxs = record { handle = 100; conn = 1 } ∷ []

abbrev stream : Stream
stream = record {
  st_h = record { buf = replicate 256 7; buf_off = 0 };
  reading = true;
  writing = false;
  closed = false;
}

abbrev mixed : List Callback
mixed = on_read (byte b'a') ∷ on_read error ∷ on_write ∷ on_read eof ∷ on_read (byte b'b') ∷ []

abbrev lines : List Bytes
lines = codes "one" ∷ codes "two" ∷ []

-- The longest line that fits, and one byte more.
long_line :
    run conn_ctxs 1 stream (map (λ c. on_read (byte c)) (replicate 256 b'a'))
    ≡ some (
      record stream { st_h = record { buf = replicate 256 b'a'; buf_off = 256 }; closed = true },
      Call.shutdown 2 ∷ [],
    )
unfolding run deliver echo_server_on_read
long_line = refl

run-session_example :
    (s' : Stream) × (calls : List Call) × (run conn_ctxs 1 stream (session lines)
      ≡ some (s', calls))
    × (written calls ≡ codes "one\ntwo\n")
    × Holds [] s'
run-session_example =
    run-session conn_ctxs 1 lines stream
      (record { whole = refl; off = refl; held = refl; reading = refl; idle = refl; live = refl })
      (omega arith)
