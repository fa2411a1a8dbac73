-- ===== src/Lsquic.antt =====
-- What the servers ask of the libraries lsquic and libevent, which they only call, and of the system.
-- A handler returns its calls in order; what a call gives back to the handler is an argument of it.
pub mod Peer
pub mod Chain
use equic.Prelude.{ℕ, Bool, List, Bytes}

pub data Call : Type 0 where
  -- lsquic_stream_shutdown: 0 for reading, 1 for writing, 2 for both
  shutdown : ℕ → Call
  want_read : Bool → Call
  want_write : Bool → Call
  flush : Call
  stream_close : Call
  -- lsquic_stream_write of these bytes
  write : Bytes → Call
  -- lsquic_stream_send_headers: names and values
  send_headers : List (Bytes × Bytes) → Call
  -- lsquic_stream_writef, and lsquic_stream_pwritev of so many bytes
  writef : Call
  pwritev : ℕ → Call
  -- lsquic_conn_push_stream of these headers
  push_stream : List (Bytes × Bytes) → Call
  conn_close : ℕ → Call
  conn_abort : Call
  -- libevent: event_add with a delay in seconds, event_del and event_free; prog_process_conns
  add_timer : ℕ → Call
  free_timer : Call
  process_conns : Call
  -- close of a file descriptor, and destroy_lsquic_reader_ctx
  close_fd : ℕ → Call
  destroy_reader : Call
  -- a message of the logger
  log : Bytes → Call

-- How a handler ends: it returns, it calls `exit`, or the C code faults (a failed assertion, a null
-- pointer, an access outside a buffer).
pub data Outcome {ℓ} (S : Type ℓ) : Type ℓ where
  returns : S → List Call → Outcome S
  exits : ℕ → Outcome S
  faults : Outcome S
