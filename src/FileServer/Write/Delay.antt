-- ===== src/FileServer/Write/Delay.antt =====
-- An answer is delayed once.
use mathlib.Core.Path.{subst}
use equic.Prelude.{
  ℕ, zero, suc, ◌+◌, ◌≤◌, ◌≡◌, inl, inr, refl, sym, arith, Bool, true, false, ◌&&◌, Option, none,
  some, List, [], ◌∷◌, ◌++◌, Bool-cases, if◌then◌else◌, Bytes,
}
use equic.Lsquic.{
  Call, add_timer, write, pwritev, stream_close, shutdown, want_read, want_write, Outcome, returns,
  exits, faults,
}
use equic.Net.{◌>>=◌}
use equic.FileServer.Reader.{Reader}
use equic.FileServer.Types.{Pwritev, off, at_most, unlimited, Options, System, StreamCtx, Input}
use equic.FileServer.Write.{
  bytes_left, send_headers_of, settled, after_write, write_file, write_reader, write_pwritev,
  fallback_reads, write_left, http_server_on_write, must_delay, to_write, Written,
}
use equic.FileServer.Life.{resume_response}

abbrev begins : Call → ℕ
begins (add_timer seconds) = 1
begins _ = 0

-- The delays that calls begin.
abbrev pub delays : List Call → ℕ
delays [] = 0
delays (call ∷ calls) = begins call + delays calls

delays-append : (calls more : List Call) → delays (calls ++ more) ≡ delays calls + delays more
delays-append [] more = omega arith
delays-append (call ∷ calls) more = omega (arith, delays-append calls more)

abbrev pub count : Bool → ℕ
count false = 0
count true = 1

count_le : (b : Bool) → 0 + count b ≤ 1
count_le true = omega arith
count_le false = omega arith

module _ (r : Reader) (o : Options) (system : System (Reader.Ctx r)) where
  open r use {Ctx}

  -- Delays begin only in a stream that was not delayed, and are noted.
  abbrev Notes : Bool → Outcome (StreamCtx Ctx) → Type 0
  Notes before (returns st_h calls) = delays calls + count before ≤ count st_h.delayed
  Notes before _ = Unit

  settled-Notes :
      (st_h : StreamCtx Ctx) (nw : Option ℕ) (calls : List Call) (left : Option ℕ)
      → delays calls ≡ 0
      → Notes st_h.delayed (settled r o system st_h nw calls left)
  unfolding settled
  settled-Notes st_h nw calls none h = tt
  settled-Notes st_h nw calls (some zero) h =
      omega (arith, h, delays-append calls (shutdown 1 ∷ want_read true ∷ []))
  settled-Notes st_h nw calls (some (suc left)) h =
      omega (arith, h, delays-append calls (want_write true ∷ []))

  -- A write begins no delay.
  abbrev IsWritten : Bool → Written r o system → Type 0
  IsWritten before none = Unit
  IsWritten before (some (st_h, nw, calls)) = (st_h.delayed ≡ before) × (delays calls ≡ 0)

  after_write-Notes :
      (before goaway : Bool) (w : Written r o system)
      → IsWritten before w
      → Notes before (after_write r o system goaway w)
  unfolding after_write
  after_write-Notes before goaway none h = tt
  after_write-Notes before false (some (st_h, none, calls)) h = tt
  after_write-Notes before true (some (st_h, none, calls)) (b, h) =
      subst
        (λ was. Notes was (
          settled r o system st_h none (calls ++ (stream_close ∷ [])) (bytes_left r o system st_h)))
        b
        (settled-Notes st_h none (calls ++ (stream_close ∷ [])) (bytes_left r o system st_h)
          (omega (arith, h, delays-append calls (stream_close ∷ []))))
  after_write-Notes before false (some (st_h, some nw, calls)) (b, h) =
      subst
        (λ was. Notes was (settled r o system st_h (some nw) calls (bytes_left r o system st_h))) b
        (settled-Notes st_h (some nw) calls (bytes_left r o system st_h) h)
  after_write-Notes before true (some (st_h, some nw, calls)) (b, h) =
      subst
        (λ was. Notes was (settled r o system st_h (some nw) calls (bytes_left r o system st_h))) b
        (settled-Notes st_h (some nw) calls (bytes_left r o system st_h) h)

  write_reader-IsWritten :
      (st_h : StreamCtx Ctx) (input : Input) (reader : Option Ctx)
      → IsWritten st_h.delayed (write_reader r o system st_h input reader)
  unfolding write_reader
  write_reader-IsWritten st_h input none = tt
  write_reader-IsWritten st_h input (some ctx) = (refl, refl)

  -- The write through the fallback reader, with the bytes that it read.
  read_IsWritten :
      (st_h : StreamCtx Ctx) (input : Input) (left : ℕ) (found : Option Bytes)
      → IsWritten st_h.delayed (
          found >>= (λ bytes. some (
            st_h,
            input.writef_nw,
            pwritev (to_write r o system o.s_pwritev left) ∷ write bytes ∷ [],
          )))
  read_IsWritten st_h input left none = tt
  read_IsWritten st_h input left (some bytes) = (refl, refl)

  write_pwritev-IsWritten :
      (st_h : StreamCtx Ctx) (input : Input) (left : ℕ) (nw : Option ℕ)
      → IsWritten st_h.delayed (write_pwritev r o system st_h input left nw)
  unfolding write_pwritev
  write_pwritev-IsWritten st_h input left none = (refl, refl)
  write_pwritev-IsWritten st_h input left (some zero) =
      read_IsWritten st_h input left (fallback_reads r o system st_h input.counts)
  write_pwritev-IsWritten st_h input left (some (suc nw)) = (refl, refl)

  write_file-IsWritten :
      (p : Pwritev) (st_h : StreamCtx Ctx) (input : Input) (left : ℕ)
      → IsWritten st_h.delayed (write_file r o system p st_h input left)
  unfolding write_file
  write_file-IsWritten off st_h input left = write_reader-IsWritten st_h input st_h.reader
  write_file-IsWritten (at_most n) st_h input left =
      write_pwritev-IsWritten st_h input left input.pwritev_nw
  write_file-IsWritten unlimited st_h input left =
      write_pwritev-IsWritten st_h input left input.pwritev_nw

  -- A delay begins in a stream that was not delayed.
  delay-Notes :
      (st_h : StreamCtx Ctx) (input : Input) (left : ℕ) (b d : Bool)
      → (b ≡ true → st_h.delayed ≡ false)
      → Notes st_h.delayed (
          if b && d
          then returns
              (record st_h { resume_resp = true; delayed = true })
              (add_timer o.delay_resp_sec ∷ want_write false ∷ [])
          else after_write r o system input.goaway
              (write_file r o system o.s_pwritev st_h input left))
  delay-Notes st_h input left true true h =
      subst (λ was. 1 + 0 + count was ≤ 1) (sym (h refl)) (omega arith)
  delay-Notes st_h input left true false h =
      after_write-Notes st_h.delayed input.goaway
        (write_file r o system o.s_pwritev st_h input left)
        (write_file-IsWritten o.s_pwritev st_h input left)
  delay-Notes st_h input left false d h =
      after_write-Notes st_h.delayed input.goaway
        (write_file r o system o.s_pwritev st_h input left)
        (write_file-IsWritten o.s_pwritev st_h input left)

  must_delay-delayed :
      (st_h : StreamCtx Ctx) → must_delay r o system st_h ≡ true → st_h.delayed ≡ false
  unfolding must_delay
  must_delay-delayed st_h h = elim (Bool-cases st_h.delayed) [
    | inl delayed ↦ absurd (ground (arith, delayed, h))
    | inr fresh ↦ fresh
  ]

  write_left-Notes :
      (st_h : StreamCtx Ctx) (input : Input) (left : Option ℕ)
      → Notes st_h.delayed (write_left r o system st_h input left)
  unfolding write_left
  write_left-Notes st_h input none = tt
  write_left-Notes st_h input (some zero) = omega arith
  write_left-Notes st_h input (some (suc left)) =
      delay-Notes st_h input (suc left) (must_delay r o system st_h) input.event_ok
        (must_delay-delayed st_h)

  send_headers_of-Notes :
      (st_h : StreamCtx Ctx) (ok : Bool) (name : Option Bytes)
      → Notes st_h.delayed (send_headers_of r o system st_h ok name)
  unfolding send_headers_of
  send_headers_of-Notes st_h ok none = tt
  send_headers_of-Notes st_h true (some name) = omega arith
  send_headers_of-Notes st_h false (some name) = tt

  sent-Notes :
      (st_h : StreamCtx Ctx) (input : Input) (sent : Bool)
      → Notes st_h.delayed (
          if sent
          then write_left r o system st_h input (bytes_left r o system st_h)
          else send_headers_of r o system st_h input.headers_ok st_h.req_filename)
  sent-Notes st_h input true = write_left-Notes st_h input (bytes_left r o system st_h)
  sent-Notes st_h input false = send_headers_of-Notes st_h input.headers_ok st_h.req_filename

  -- A call of the writing handler, or of the callback of the event.
  pub happens : StreamCtx Ctx → Option Input → Outcome (StreamCtx Ctx)
  happens st_h none = resume_response st_h
  happens st_h (some input) = http_server_on_write r o system st_h input

  happens-Notes :
      (st_h : StreamCtx Ctx) (event : Option Input) → Notes st_h.delayed (happens st_h event)
  unfolding happens http_server_on_write resume_response
  happens-Notes st_h none = omega arith
  happens-Notes st_h (some input) = sent-Notes st_h input st_h.headers_sent

  counted : Outcome (StreamCtx Ctx) → (StreamCtx Ctx → ℕ) → ℕ
  counted (returns st_h calls) next = delays calls + next st_h
  counted _ next = 0

  -- The delays that begin while such calls are made, in any order.
  pub run_delays : StreamCtx Ctx → List (Option Input) → ℕ
  unfolding counted
  run_delays st_h [] = 0
  run_delays st_h (event ∷ events) = counted (happens st_h event) (λ st_h'. run_delays st_h' events)

  counted_le :
      (before : Bool) (outcome : Outcome (StreamCtx Ctx)) (next : StreamCtx Ctx → ℕ)
      → Notes before outcome
      → ((st_h : StreamCtx Ctx) → next st_h + count st_h.delayed ≤ 1)
      → counted outcome next + count before ≤ 1
  unfolding counted
  counted_le before (returns st_h calls) next h k = omega (arith, h, k st_h)
  counted_le true (exits code) next h k = omega arith
  counted_le false (exits code) next h k = omega arith
  counted_le true faults next h k = omega arith
  counted_le false faults next h k = omega arith

  -- Whatever the options and the state of a stream, and in whatever order the writing handler and the
  -- callback of the event are called: one delay begins at most, and none if the stream was delayed
  -- before.
  pub run_delays_le :
      (st_h : StreamCtx Ctx) (events : List (Option Input))
      → run_delays st_h events + count st_h.delayed ≤ 1
  unfolding run_delays
  run_delays_le st_h [] = count_le st_h.delayed
  run_delays_le st_h (event ∷ events) =
      counted_le st_h.delayed (happens st_h event) (λ st_h'. run_delays st_h' events)
        (happens-Notes st_h event) (λ st_h'. run_delays_le st_h' events)
