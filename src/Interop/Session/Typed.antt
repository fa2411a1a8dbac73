-- ===== src/Interop/Session/Typed.antt =====
-- Every sequence of reads and writes on a stream of the interop mode finds in the union the member
-- that it needs.
use equic.Prelude.{
  ◌<◌, ◌^◌, ◌≡◌, ◌⊎◌, inl, inr, refl, Bool, true, false, ◌||◌, Option, List, [], ◌∷◌, Bytes, length,
}
use equic.Lsquic.{Outcome, returns, exits, faults}
use equic.Routes.{ReqMap, Match}
use equic.Routes.First.{AllMaps}
use equic.Interop.Types.{StreamCtx}
use equic.Interop.Start.Session.{IsFilled, HasMemory, IsAnswered}
use equic.Interop.Read.Session.{on_read-Stays}
use equic.Interop.Write.Session.Idle.{IsShortInput}
use equic.Interop.Write.Session.{on_write-Stays}
use equic.Interop.Session.{
  Wants, wants_after, Event, readable, writable, missing, unread, fails, some_fail, continued,
  handled, run,
}
use equic.Interop.Session.Invariant.{agrees, HoldsFrom, IsSession, Stays, if-Stays, Holds-agrees}

-- Either no header was read yet, or the union holds the member of the handler.
abbrev pub IsTyped : StreamCtx → Type 0
IsTyped st_h = (st_h.headers_read ≡ false) ⊎ (agrees st_h.interop_handler st_h.interop_u ≡ true)

-- The program goes on, with a union as it should be; or it exits, and then something had failed.
abbrev pub IsSafe : Bool → Outcome StreamCtx → Type 0
IsSafe failed (returns st_h calls) = IsTyped st_h
IsSafe failed (exits code) = failed ≡ true
IsSafe failed faults = ⊥

or_left : (a b : Bool) → a ≡ true → (a || b) ≡ true
or_left a b e = rw e refl

or_right : (a b : Bool) → b ≡ true → (a || b) ≡ true
or_right true b e = refl
or_right false b e = e

module _ (index_page : Bytes) (regexec : Bytes → Bytes → Option (List Match)) (md5 : Bytes → Bytes)
    (litespeed_id on_being_idle : Bytes) (short : length on_being_idle < 2 ^ 32)
    (maps : List ReqMap) where
  -- A header set is not empty, there is memory for the push paths, and a buffer that is offered has fewer than 2 ^ 32 bytes.
  abbrev pub IsEvent : Event → Type 0
  IsEvent (readable input) = IsFilled input.hset × HasMemory input.memory
  IsEvent (writable input) = IsShortInput litespeed_id on_being_idle short input

  abbrev pub AreEvents : List Event → Type 0
  AreEvents [] = Unit
  AreEvents (event ∷ events) = IsEvent event × AreEvents events

  module _ (long : 0 < length on_being_idle) (paged : 0 < length index_page)
      (answered : AllMaps regexec (IsAnswered index_page regexec) maps) where
    handled-Stays :
        (event : Event) (st_h : StreamCtx) (w : Wants)
        → IsSession on_being_idle short st_h w
        → IsEvent event
        → Stays on_being_idle short w
            (fails event)
            (handled index_page regexec md5 litespeed_id on_being_idle maps w event st_h)
    unfolding handled wants_after fails
    handled-Stays (readable input) st_h w holds ok =
        if-Stays on_being_idle short w.reads w _ _ _
          (λ on.
            on_read-Stays index_page regexec on_being_idle short long paged md5 maps answered st_h
              input w _ holds ok.0 ok.1 on
              (
                or_left input.readf_failed _,
                λ f. or_right input.readf_failed _ (or_left (unread input.body) _ f),
                λ f. or_right input.readf_failed _ (or_right (unread input.body) _ f),
              ))
          (λ off. holds)
    handled-Stays (writable input) st_h w holds ok =
        if-Stays on_being_idle short w.writes w _ _ _
          (λ on.
            on_write-Stays litespeed_id on_being_idle short st_h.headers_read st_h input w _ refl
              holds on ok
              (or_left (missing input.writef_nw) _, or_right (missing input.writef_nw) _))
          (λ off. holds)

    IsSession-IsTyped :
        (read : Bool) (st_h : StreamCtx) (w : Wants)
        → st_h.headers_read ≡ read
        → HoldsFrom on_being_idle short read st_h w
        → IsTyped st_h
    IsSession-IsTyped false st_h w e holds = inl e
    IsSession-IsTyped true st_h w e holds =
        inr (Holds-agrees on_being_idle short st_h.interop_handler st_h.interop_u st_h.req w holds)

    continued-IsSafe :
        (outcome : Outcome StreamCtx) (w : Wants) (failed : Bool) (events : List Event)
        → Stays on_being_idle short w failed outcome
        → ((st_h : StreamCtx) (w' : Wants)
            → IsSession on_being_idle short st_h w'
            → IsSafe
                (some_fail events)
                (run index_page regexec md5 litespeed_id on_being_idle maps st_h w' events))
        → IsSafe (failed || some_fail events) (
            continued outcome (λ st_h calls.
              run index_page regexec md5 litespeed_id on_being_idle maps st_h
                (wants_after calls w)
                events))
    unfolding continued
    continued-IsSafe (returns st_h calls) w failed events stays next =
        weaker _ (next st_h (wants_after calls w) stays)
      where
        weaker :
            (outcome : Outcome StreamCtx)
            → IsSafe (some_fail events) outcome
            → IsSafe (failed || some_fail events) outcome
        weaker (returns st_h' calls') safe = safe
        weaker (exits code) safe = or_right failed (some_fail events) safe
        weaker faults safe = safe
    continued-IsSafe (exits code) w failed events stays next =
        or_left failed (some_fail events) stays
    continued-IsSafe faults w failed events stays next = stays

    run-IsSafe :
        (events : List Event) (st_h : StreamCtx) (w : Wants)
        → IsSession on_being_idle short st_h w
        → AreEvents events
        → IsSafe
            (some_fail events)
            (run index_page regexec md5 litespeed_id on_being_idle maps st_h w events)
    unfolding run some_fail
    run-IsSafe [] st_h w holds ok = IsSession-IsTyped st_h.headers_read st_h w refl holds
    run-IsSafe (event ∷ events) st_h w holds ok =
        continued-IsSafe
          (handled index_page regexec md5 litespeed_id on_being_idle maps w event st_h) w
          (fails event) events (handled-Stays event st_h w holds ok.0)
          (λ st_h' w' holds'. run-IsSafe events st_h' w' holds' ok.1)

    -- For every index page and text that are not empty, the text of fewer than 2 ^ 32 bytes, and
    -- every table whose entries name an index page, an MD5 sum, a header check, or a generated
    -- file by a compiled pattern whose first group takes part in every match, and want the body
    -- for just the sum and the check: on a new stream, which asks to read, whatever reads and
    -- writes follow, with header sets that are not empty, memory for each path to push, whose
    -- allocation the handler does not test, and buffers of fewer than 2 ^ 32 bytes, if lsquic
    -- calls a handler only when the stream asks for it, no handler faults, by an assertion, a null
    -- pointer or a loop without end; from the first read on the union holds the member of the
    -- `interop_handler`; and the program exits only if a read or a write failed, or the allocation
    -- of the buffer for a body.
    pub run-IsTyped :
        (events : List Event) (st_h : StreamCtx)
        → st_h.headers_read ≡ false
        → AreEvents events
        → IsSafe (some_fail events) (
            run index_page regexec md5 litespeed_id on_being_idle maps st_h
              (record { reads = true; writes = false })
              events)
    run-IsTyped events st_h e ok =
        run-IsSafe events st_h (record { reads = true; writes = false }) (rw e refl) ok
