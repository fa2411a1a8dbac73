-- ===== src/Echo/Stream.antt =====
-- A stream of the echo server as lsquic drives it: a handler is called only while it is wanted and
-- the stream has not been shut down.
pub mod Bounds
pub mod Lines
mod Tests
use equic.Prelude.{
  ℕ, Bool, true, false, not, ◌&&◌, Option, none, some, List, [], ◌∷◌, ◌++◌, Bytes, if◌then◌else◌,
}
use equic.Net.{◌>>=◌}
use equic.Lsquic.{Call, shutdown, want_read, want_write, write, Outcome, returns, exits, faults}
use equic.Echo.{ConnCtx, StreamCtx, Read, echo_server_on_read, echo_server_on_write}

pub record Stream : Type 0 where
  pub st_h : StreamCtx
  pub reading : Bool
  pub writing : Bool
  pub closed : Bool

pub data Callback : Type 0 where
  on_read : Read → Callback
  on_write : Callback

-- The calls that decide which handlers run next.
pub applied : Stream → List Call → Stream
applied s [] = s
applied s (shutdown how ∷ calls) = applied (record s { closed = true }) calls
applied s (want_read on ∷ calls) = applied (record s { reading = on }) calls
applied s (want_write on ∷ calls) = applied (record s { writing = on }) calls
applied s (call ∷ calls) = applied s calls

-- `none` if the handler faults.
after : Stream → Outcome StreamCtx → Option (Stream × List Call)
after s (returns st_h' calls) = some (applied (record s { st_h = st_h' }) calls, calls)
after s (exits code) = none
after s faults = none

module _ (conn_ctxs : List ConnCtx) (conn : ℕ) where
  -- A callback that lsquic would not make changes nothing.
  pub deliver : Stream → Callback → Option (Stream × List Call)
  unfolding applied after
  deliver s (on_read r) =
      if s.reading && not s.closed
      then after s (echo_server_on_read conn_ctxs conn s.st_h r)
      else some (s, [])
  deliver s on_write =
      if s.writing && not s.closed then after s (echo_server_on_write s.st_h) else some (s, [])

  pub run : Stream → List Callback → Option (Stream × List Call)
  run s [] = some (s, [])
  run s (c ∷ cs) = do (s1, now) ← deliver s c; (s2, later) ← run s1 cs; some (s2, now ++ later)

-- The bytes that a list of calls writes.
abbrev pub written : List Call → Bytes
written [] = []
written (write bytes ∷ calls) = bytes ++ written calls
written (call ∷ calls) = written calls
