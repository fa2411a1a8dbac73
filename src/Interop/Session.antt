-- ===== src/Interop/Session.antt =====
-- A stream of the interop mode, on which lsquic calls `http_server_interop_on_read` and
-- `http_server_interop_on_write` in any order that the stream asks for.
pub mod Invariant
pub mod Typed
mod Tests
use equic.Prelude.{
  ℕ, zero, suc, Bool, true, false, ◌||◌, Option, none, some, List, [], ◌∷◌, Bytes, if◌then◌else◌,
}
use equic.Lsquic.{
  Call, shutdown, want_read, want_write, stream_close, conn_abort, Outcome, returns, exits, faults,
}
use equic.Routes.{ReqMap, Match}
use equic.Interop.Types.{StreamCtx, Body, failed, Input}
use equic.Interop.Read.{http_server_interop_on_read}
use equic.Interop.Write
use equic.Interop.Write.{http_server_interop_on_write}

-- Whether lsquic is to call the reading handler, and the writing one.
pub record Wants : Type 0 where
  pub reads : Bool
  pub writes : Bool

-- What the calls of a handler ask for. A side that was shut down is called no more, nor is a stream
-- that was closed.
unfoldable pub wants_after : List Call → Wants → Wants
wants_after [] w = w
wants_after (shutdown zero ∷ calls) w = wants_after calls (record w { reads = false })
wants_after (shutdown (suc how) ∷ calls) w = wants_after calls (record w { writes = false })
wants_after (want_read b ∷ calls) w = wants_after calls (record w { reads = b })
wants_after (want_write b ∷ calls) w = wants_after calls (record w { writes = b })
wants_after (stream_close ∷ calls) w = wants_after calls (record { reads = false; writes = false })
wants_after (conn_abort ∷ calls) w = wants_after calls (record { reads = false; writes = false })
wants_after (call ∷ calls) w = wants_after calls w

-- What lsquic is ready for, with what it would give to the handler.
pub data Event : Type 0 where
  readable : Input → Event
  writable : Write.Input → Event

unfoldable pub missing {ℓ} : {A : Type ℓ} → Option A → Bool
missing none = true
missing (some x) = false

unfoldable pub unread : Body → Bool
unread failed = true
unread body = false

-- A read or a write of lsquic fails, or there is no memory for a buffer.
unfoldable pub fails : Event → Bool
unfolding missing unread
fails (readable input) = input.readf_failed || (unread input.body || missing input.buffer)
fails (writable input) = missing input.writef_nw || missing input.pwritev_nw

unfoldable pub some_fail : List Event → Bool
unfolding fails
some_fail [] = false
some_fail (event ∷ events) = fails event || some_fail events

unfoldable pub continued {ℓ} : {S : Type ℓ} → Outcome S → (S → List Call → Outcome S) → Outcome S
continued (returns s calls) next = next s calls
continued (exits code) next = exits code
continued faults next = faults

module _ (index_page : Bytes) (regexec : Bytes → Bytes → Option (List Match)) (md5 : Bytes → Bytes)
    (litespeed_id on_being_idle : Bytes) (maps : List ReqMap) where
  -- The handler for an event, if the stream asks for it.
  unfoldable pub handled : Wants → Event → StreamCtx → Outcome StreamCtx
  unfolding http_server_interop_on_read http_server_interop_on_write
  handled w (readable input) st_h =
      if w.reads
      then http_server_interop_on_read index_page regexec md5 maps st_h input
      else returns st_h []
  handled w (writable input) st_h =
      if w.writes
      then http_server_interop_on_write litespeed_id on_being_idle st_h input
      else returns st_h []

  unfoldable pub run : StreamCtx → Wants → List Event → Outcome StreamCtx
  unfolding handled wants_after continued
  run st_h w [] = returns st_h []
  run st_h w (event ∷ events) =
      continued (handled w event st_h) (λ st_h' calls. run st_h' (wants_after calls w) events)
