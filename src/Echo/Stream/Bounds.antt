-- ===== src/Echo/Stream/Bounds.antt =====
-- The buffer of a stream is never overrun, whatever the client sends.
use equic.Prelude.{◌≤◌, ◌<◌, ◌≡◌, true, false, Option, none, some, List, length}
use equic.Lsquic.{Call}
use equic.Echo.{size_of_buf}
use equic.Echo.Stream.{Stream}

pub record IsStream (s : Stream) : Type 0 where
  pub whole : length s.st_h.buf ≡ size_of_buf
  pub within : s.st_h.buf_off ≤ size_of_buf
  pub room : s.reading ≡ true → s.closed ≡ false → s.st_h.buf_off < size_of_buf

-- The handler did not fault, and left a sound stream.
abbrev Safe : Option (Stream × List Call) → Type 0
Safe none = ⊥
Safe (some (s, calls)) = IsStream s
