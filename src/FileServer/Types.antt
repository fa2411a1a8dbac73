-- ===== src/FileServer/Types.antt =====
-- http_server.c, the part of `struct lsquic_stream_ctx` that the file service uses, its options, and
-- what its surroundings give to the handlers.
use equic.Prelude.{ℕ, ◌+◌, ◌-◌, ◌%◌, ◌^◌, Bool, Option, none, some, List, Bytes}
use equic.Routes.{Match}

-- `s_pwritev`: zero, positive or negative.
pub data Pwritev : Type 0 where
  off : Pwritev
  at_most : ℕ → Pwritev
  unlimited : Pwritev

-- The members of `struct server_ctx` and the static variables that options set. `s_immediate_write`
-- is taken as a `size_t`.
pub record Options : Type 0 where
  pub document_root : Bytes
  pub push_path : Option Bytes
  pub delay_resp_sec : ℕ
  pub s_immediate_write : ℕ
  pub s_pwritev : Pwritev

-- What the system does with a name: open and fstat give a descriptor and a size, or fail;
-- create_lsquic_reader_ctx, of lsquic, gives a reader or NULL. The name may be a null pointer.
-- `preadv` reads so many bytes of a descriptor from an offset.
pub record System (Ctx : Type 0) : Type 0 where
  pub open_file : Option Bytes → Option ℕ
  pub fstat : ℕ → Option ℕ
  pub create_lsquic_reader_ctx : Option Bytes → Option Ctx
  pub preadv : ℕ → ℕ → ℕ → Option Bytes
  pub regexec : Bytes → Bytes → Option (List Match)

-- `struct lsquic_stream_ctx`; `req_fh` is whether the memory stream is open, and `req_buf` its bytes.
-- SH_HEADERS_SENT and SH_DELAYED are fields.
pub record StreamCtx (Ctx : Type 0) : Type 0 where
  pub req_fh : Bool
  pub req_buf : Bytes
  pub req_filename : Option Bytes
  pub req_path : Option Bytes
  pub headers_sent : Bool
  pub delayed : Bool
  pub reader : Option Ctx
  pub file_fd : ℕ
  pub resume_resp : Bool
  pub written : ℕ
  pub file_size : ℕ

-- What lsquic and libevent give to a call of a writing handler: whether the headers are sent; whether
-- there is memory for an event; the size of the buffers and the result of lsquic_stream_pwritev; the
-- sizes of the buffers and the result of lsquic_stream_writef (`none` is -1); and whether the
-- connection has RECEIVED_GOAWAY.
pub record Input : Type 0 where
  pub headers_ok : Bool
  pub event_ok : Bool
  pub iov : ℕ
  pub pwritev_nw : Option ℕ
  pub counts : List ℕ
  pub writef_nw : Option ℕ
  pub goaway : Bool

-- `a + (size_t) nw` of type `size_t`, where -1 is 2 ^ 64 - 1.
abbrev pub add_nw : ℕ → Option ℕ → ℕ
add_nw a none = (a + (2 ^ 64 - 1)) % 2 ^ 64
add_nw a (some nw) = (a + nw) % 2 ^ 64
