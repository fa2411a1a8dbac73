-- ===== src/Echo/Stream/Lines.antt =====
-- Lines that fit the buffer are echoed, each whole and in order.
use mathlib.Core.List.{append-nil, append_assoc}
use equic.Prelude.{
  ℕ, suc, zero, ◌+◌, ◌-◌, ◌<◌, ◌≡◌, ◌≢◌, refl, ap, ◌∙◌, arith, true, false, Option, none, some,
  List, [], ◌∷◌, ◌++◌, map, Bytes, length, length-set, length-append, set, take, get_elem?-set_self,
}
use equic.Net.{◌>>=◌}
use equic.Lsquic.{Call, want_read, want_write, write, flush}
use equic.Echo.{ConnCtx, byte, size_of_buf, echo_server_on_read, echo_server_on_write}
use equic.Echo.Stream.{Stream, Callback, on_read, on_write, deliver, run, written}

-- A text with no line feed.
abbrev pub IsLine : Bytes → Type 0
IsLine [] = Unit
IsLine (c ∷ cs) = (c ≢ b'\n') × IsLine cs

abbrev pub reads : Bytes → List Callback
reads = map (λ c. on_read (byte c))

-- The stream waits for bytes and has the bytes `p` of a line.
pub record Holds (p : Bytes) (s : Stream) : Type 0 where
  pub whole : length s.st_h.buf ≡ size_of_buf
  pub off : s.st_h.buf_off ≡ length p
  pub held : take (length p) s.st_h.buf ≡ p
  pub reading : s.reading ≡ true
  pub idle : s.writing ≡ false
  pub live : s.closed ≡ false

-- The callbacks of a client that sends these lines, each when the last was echoed.
abbrev pub session : List Bytes → List Callback
session [] = []
session (line ∷ lines) = reads line ++ (on_read (byte b'\n') ∷ on_write ∷ session lines)

abbrev pub text : List Bytes → Bytes
text [] = []
text (line ∷ lines) = (line ++ (b'\n' ∷ [])) ++ text lines

abbrev pub AreLines : List Bytes → Type 0
AreLines [] = Unit
AreLines (line ∷ lines) = IsLine line × (length line < size_of_buf) × AreLines lines

take-set :
    (xs : Bytes) (n c : ℕ) → n < length xs → take (n + 1) (set xs n c) ≡ take n xs ++ (c ∷ [])
take-set [] n c h = absurd (omega arith)
take-set (x ∷ xs) zero c h = refl
take-set (x ∷ xs) (suc n) c h =
    let e : suc n + 1 ≡ suc (n + 1) = omega arith in
    rw e (ap (λ t. x ∷ t) (take-set xs n c (omega arith)))

add-sub_cancel : (n : ℕ) → n + 1 - 1 ≡ n
add-sub_cancel n = omega arith

module _ (conn_ctxs : List ConnCtx) (conn : ℕ) where
  abbrev stored : Stream → ℕ → Stream
  stored s c = record s {
    st_h = record { buf = set s.st_h.buf s.st_h.buf_off c; buf_off = s.st_h.buf_off + 1 };
  }

  stored-Holds :
      (p : Bytes) (s : Stream) (c : ℕ)
      → Holds p s
      → length p < size_of_buf
      → Holds (p ++ (c ∷ [])) (stored s c)
  stored-Holds p s c h room = ground (
    arith,
    length-set s.st_h.buf s.st_h.buf_off c,
    length-append p (c ∷ []),
    take-set s.st_h.buf (length p) c,
  )

  deliver-byte :
      (p : Bytes) (s : Stream) (c : ℕ)
      → Holds p s
      → length p + 1 < size_of_buf
      → c ≢ b'\n'
      → deliver conn_ctxs conn s (on_read (byte c)) ≡ some (stored s c, [])
  unfolding deliver echo_server_on_read
  deliver-byte p s c h room ne =
      ground (arith, get_elem?-set_self s.st_h.buf s.st_h.buf_off c, add-sub_cancel s.st_h.buf_off)

  abbrev full : Stream → Stream
  full s = record (stored s b'\n') { reading = false; writing = true }

  deliver_line_feed :
      (p : Bytes) (s : Stream)
      → Holds p s
      → length p < size_of_buf
      → deliver conn_ctxs conn s (on_read (byte b'\n'))
        ≡ some (full s, want_write true ∷ want_read false ∷ [])
  unfolding deliver echo_server_on_read
  deliver_line_feed p s h room =
      ground
        (arith, get_elem?-set_self s.st_h.buf s.st_h.buf_off b'\n', add-sub_cancel s.st_h.buf_off)

  abbrev emptied : Stream → Stream
  emptied s = record s {
    st_h = record { buf = s.st_h.buf; buf_off = 0 };
    reading = true;
    writing = false;
  }

  abbrev echo : Bytes → List Call
  echo text = write text ∷ flush ∷ want_write false ∷ want_read true ∷ []

  deliver-full :
      (p : Bytes) (s : Stream)
      → Holds p s
      → length p < size_of_buf
      → deliver conn_ctxs conn (full s) on_write ≡ some (emptied (full s), echo (p ++ (b'\n' ∷ [])))
  unfolding deliver echo_server_on_write
  deliver-full p s h room =
      ground (arith, stored-Holds p s b'\n' h room, length-append p (b'\n' ∷ []))

  run_silent :
      (s s' : Stream) (c : Callback) (cs : List Callback)
      → deliver conn_ctxs conn s c ≡ some (s', [])
      → run conn_ctxs conn s (c ∷ cs) ≡ run conn_ctxs conn s' cs
  unfolding run
  run_silent s s' c cs e = rw e (same (run conn_ctxs conn s' cs))
    where
      same : (o : Option (Stream × List Call)) → (o >>= λ r. some (r.0, [] ++ r.1)) ≡ o
      same none = refl
      same (some r) = refl

  run_line :
      (line p : Bytes) (s : Stream) (cs : List Callback)
      → Holds p s
      → IsLine line
      → length p + length line < size_of_buf
      → (s' : Stream) × Holds (p ++ line) s'
        × (run conn_ctxs conn s (reads line ++ cs) ≡ run conn_ctxs conn s' cs)
  run_line [] p s cs h l fits = (s, rw (append-nil p) h, refl)
  run_line (c ∷ line) p s cs h l fits =
      let next = stored-Holds p s c h (omega arith) in
      let (s', h', e) =
        run_line line (p ++ (c ∷ [])) (stored s c) cs next l.1
          (omega (arith, length-append p (c ∷ []))) in
      let first =
        run_silent s (stored s c) (on_read (byte c)) (reads line ++ cs)
          (deliver-byte p s c h (omega arith) l.0) in
      (s', rw (append_assoc p (c ∷ []) line) at h', first ∙ e)

  -- A stream that waits for a line, and gets lines of fewer than 256 bytes before the line feed,
  -- runs without a fault, writes back exactly those lines in order, and waits for a line again.
  pub run-session :
      (lines : List Bytes) (s : Stream)
      → Holds [] s
      → AreLines lines
      → (s' : Stream) × (calls : List Call) × (run conn_ctxs conn s (session lines)
          ≡ some (s', calls))
        × (written calls ≡ text lines)
        × Holds [] s'
  unfolding run
  run-session [] s h ok = (s, [], refl, refl, h)
  run-session (line ∷ lines) s h ok =
      let (s1, h1, e1) =
        run_line line [] s (on_read (byte b'\n') ∷ on_write ∷ session lines) h ok.0
          (omega (arith, ok.1)) in
      let (s', calls, e2, w, h2) =
        run-session lines (emptied (full s1)) (emptied-Holds line s1 h1 ok.1) ok.2 in
      (
        s',
        want_write true ∷ want_read false ∷ (echo (line ++ (b'\n' ∷ [])) ++ calls),
        e1 ∙ rw (deliver_line_feed line s1 h1 ok.1, deliver-full line s1 h1 ok.1, e2) refl,
        ap (λ t. (line ++ (b'\n' ∷ [])) ++ t) w,
        h2,
      )
    where
      emptied-Holds :
          (p : Bytes) (s1 : Stream)
          → Holds p s1
          → length p < size_of_buf
          → Holds [] (emptied (full s1))
      emptied-Holds p s1 h room = ground (arith, length-set s1.st_h.buf s1.st_h.buf_off b'\n')
