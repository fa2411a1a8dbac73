-- ===== src/Echo.antt =====
-- echo_server.c, the streams of the echo server: `echo_server_on_new_stream`, `find_conn_h`,
-- `echo_server_on_read` and `echo_server_on_write`. A connection context is the pair of its own
-- address and that of its connection.
pub mod Stream
use equic.Prelude.{
  ℕ, ◌+◌, ◌-◌, ◌^◌, Bool, true, false, Option, none, some, List, [], ◌∷◌, Bytes, get_elem?, set,
  take, replicate, length, ltb, ◌==◌, if◌then◌else◌,
}
use equic.Lsquic.{
  Call, shutdown, want_read, want_write, flush, write, conn_close, Outcome, returns, faults,
}

-- `struct lsquic_conn_ctx`
pub record ConnCtx : Type 0 where
  pub handle : ℕ
  pub conn : ℕ

-- `sizeof(st_h->buf)`
abbrev pub size_of_buf : ℕ
size_of_buf = 0x100

-- `struct lsquic_stream_ctx`
pub record StreamCtx : Type 0 where
  pub buf : Bytes
  pub buf_off : ℕ

-- What `lsquic_stream_read` of one byte does.
pub data Read : Type 0 where
  byte : ℕ → Read
  eof error : Read

-- Its result as a `size_t`: -1 wraps.
abbrev pub nr : Read → ℕ
nr (byte c) = 1
nr eof = 0
nr error = 2 ^ 64 - 1

-- The bytes that `malloc` leaves in the buffer are an argument.
pub echo_server_on_new_stream : Bytes → Outcome StreamCtx
echo_server_on_new_stream junk = returns (record { buf = junk; buf_off = 0 }) (want_read true ∷ [])

-- TAILQ_FOREACH over the contexts of the connections
pub find_conn_h : List ConnCtx → ℕ → Option ConnCtx
find_conn_h [] conn = none
find_conn_h (conn_h ∷ rest) conn =
    if conn_h.conn == conn then some conn_h else find_conn_h rest conn

-- The byte that is read is stored at `at`; `none` is a store outside the buffer.
store : Bytes → ℕ → Read → Option Bytes
store buf at (byte c) = if ltb at (length buf) then some (set buf at c) else none
store buf at eof = some buf
store buf at error = some buf

-- On the end of the stream, with the context of its connection.
on_eof : StreamCtx → Option ConnCtx → Outcome StreamCtx
on_eof st_h none = faults
on_eof st_h (some conn_h) = returns st_h (shutdown 2 ∷ conn_close conn_h.conn ∷ [])

-- On the last byte of the buffer; `none` is a read outside it.
on_last : StreamCtx → Option ℕ → Outcome StreamCtx
on_last st_h none = faults
on_last st_h (some last) =
    if last == b'\n'
    then returns st_h (want_write true ∷ want_read false ∷ [])
    else if st_h.buf_off == size_of_buf
    then returns st_h (shutdown 2 ∷ [])
    else returns st_h []

on_stored : List ConnCtx → ℕ → StreamCtx → Read → Option Bytes → Outcome StreamCtx
on_stored conn_ctxs conn st_h r none = faults
on_stored conn_ctxs conn st_h r (some buf') =
    let st_h' = record st_h { buf = buf'; buf_off = st_h.buf_off + 1 } in
    if nr r == 0
    then on_eof st_h' (find_conn_h conn_ctxs conn)
    else on_last st_h' (get_elem? buf' (st_h'.buf_off - 1))

-- The handler for the stream of the connection `conn`.
pub echo_server_on_read : List ConnCtx → ℕ → StreamCtx → Read → Outcome StreamCtx
unfolding store on_eof on_last on_stored
echo_server_on_read conn_ctxs conn st_h r =
    on_stored conn_ctxs conn st_h r (store st_h.buf st_h.buf_off r)

pub echo_server_on_write : StreamCtx → Outcome StreamCtx
echo_server_on_write st_h =
    returns (record st_h { buf_off = 0 })
      (write (take st_h.buf_off st_h.buf) ∷ flush ∷ want_write false ∷ want_read true ∷ [])
