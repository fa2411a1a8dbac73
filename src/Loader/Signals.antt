-- ===== src/Loader/Signals.antt =====
-- A signal that arrives while the program is loaded into the kernel, or later.
use equic.Prelude.{
  ℕ, ◌≡◌, ◌≢◌, refl, ap, sym, ◌∙◌, arith, Bool, true, false, some, ◌==◌, if◌then◌else◌,
}
use equic.Xdp.{Xdp}
use equic.Loader.{
  Results, Run, running, exited, Process, proceed, link, linked, identify, equic_load, unloaded,
  equic_sigint_callback, equic_sigterm_callback,
}

same : (a b : ℕ) → a ≡ b → (a == b) ≡ true
same a b h = ground (arith, h)

differs : (a b : ℕ) → a ≢ b → (a == b) ≡ false
differs a b h = ground (arith, h)

inner_if :
    (i k j : ℕ)
    → i ≡ k
    → (a b : ℕ) → (if i == j then 0 else if k == j then a else b) ≡ (if i == j then 0 else b)
inner_if i k j h a b = ground (arith, h)

unchanged : (f : ℕ → ℕ) (i j : ℕ) → f i ≡ 0 → f j ≡ (if i == j then 0 else f j)
unchanged f i j h = ground (arith, h)

-- When a signal arrives: before the first call of `equic_load`, after it, or after `equic_load`.
pub data Moment : Type 0 where
  before_link after_link after_load : Moment

module _ (x : Xdp) (results : Results) where
  open x use {State, attached, prog_id, attach, detach, attach_busy, attach_stored, detach_stored}

  -- What has been done at that moment, and then the handler.
  abbrev pub reached : Moment → Process x → Run (Process x)
  reached before_link p = running p
  reached after_link p = link x results p
  reached after_load p = equic_load x results p

  -- The first argument is whether the kernel tells the handler which program is at the interface.
  abbrev pub interrupted : Bool → Moment → Process x → Run (Process x)
  interrupted told moment p = proceed (reached moment p) (equic_sigterm_callback x told)

  -- The program that the handler leaves at the interface.
  abbrev pub left : Bool → Moment → Process x → ℕ
  left told before_link p = 0
  left told after_link p = prog_id p.equic.prog_fd
  left told after_load p = if told then 0 else prog_id p.equic.prog_fd

  -- The handler where the program of the interface is its own, and where it is another one.
  sigterm-own :
      (p : Process x) (s : State)
      → attached p.xdp p.equic_ifindex ≡ p.equic_prog_id
      → detach p.xdp p.equic_ifindex ≡ some s
      → equic_sigterm_callback x true p ≡ exited 0 (record p { xdp = s })
  unfolding equic_sigterm_callback equic_sigint_callback unloaded
  sigterm-own p s h d =
      ap (λ b. if b then exited 0 (unloaded x p (detach p.xdp p.equic_ifindex)) else exited 0 p)
        (same (attached p.xdp p.equic_ifindex) p.equic_prog_id h)
      ∙ ap (λ found. exited 0 (unloaded x p found)) d

  sigterm-other :
      (p : Process x)
      → attached p.xdp p.equic_ifindex ≢ p.equic_prog_id
      → equic_sigterm_callback x true p ≡ exited 0 p
  unfolding equic_sigterm_callback equic_sigint_callback
  sigterm-other p h =
      ap (λ b. if b then exited 0 (unloaded x p (detach p.xdp p.equic_ifindex)) else exited 0 p)
        (differs (attached p.xdp p.equic_ifindex) p.equic_prog_id h)

  -- What a signal leaves, for the program of each interface.
  abbrev Leaves : ℕ → Run (Process x) → (ℕ → ℕ) → Type 0
  Leaves code outcome programs =
      (p' : Process x) × (outcome ≡ exited code p') × ((j : ℕ) → attached p'.xdp j ≡ programs j)

  sigterm-untold : (p : Process x) → equic_sigterm_callback x false p ≡ exited 1 p
  unfolding equic_sigterm_callback equic_sigint_callback
  sigterm-untold p = refl

  sigterm-Leaves :
      (p : Process x)
      → attached p.xdp p.equic_ifindex ≡ p.equic_prog_id
      → (s : State) × (detach p.xdp p.equic_ifindex ≡ some s)
      → Leaves 0
          (equic_sigterm_callback x true p)
          (λ j. if p.equic_ifindex == j then 0 else attached p.xdp j)
  sigterm-Leaves p h (s, d) =
      (record p { xdp = s }, sigterm-own p s h d, λ j. detach_stored p.xdp p.equic_ifindex j d)

  module _ (p : Process x) (s : State) (same_index : p.equic_ifindex ≡ p.equic.if_index)
      (linking : attach p.xdp p.equic.if_index p.equic.prog_fd ≡ some s) where
    link-running : link x results p ≡ running (record p { xdp = s })
    unfolding link linked
    link-running = ap (linked x results p) linking

    equic_load-running :
        results.info_ok ≡ true
        → equic_load x results p
          ≡ running (record p { xdp = s; equic_prog_id = prog_id p.equic.prog_fd })
    unfolding equic_load identify proceed
    equic_load-running ok =
        ap (λ reached. proceed reached (identify x results)) link-running
        ∙ ap
            (λ b.
              if b
              then running (record p { xdp = s; equic_prog_id = prog_id p.equic.prog_fd })
              else exited 1 (record p { xdp = s }))
            ok

    attached-linked : attached s p.equic_ifindex ≡ prog_id p.equic.prog_fd
    attached-linked =
        attach_stored p.xdp p.equic.if_index p.equic.prog_fd p.equic_ifindex linking
        ∙ ap (λ b. if b then prog_id p.equic.prog_fd else attached p.xdp p.equic_ifindex)
            (same p.equic.if_index p.equic_ifindex (sym same_index))

    programs-linked :
        (j : ℕ)
        → attached s j
          ≡ (if p.equic_ifindex == j then prog_id p.equic.prog_fd else attached p.xdp j)
    programs-linked j =
        attach_stored p.xdp p.equic.if_index p.equic.prog_fd j linking
        ∙ ap (λ i. if i == j then prog_id p.equic.prog_fd else attached p.xdp j) (sym same_index)

    -- For every process that has read its object, with no program at its interface: if the kernel
    -- takes the program and tells `equic_load` its identifier, and the program can be taken out,
    -- then, for a signal before the first call of `equic_load`, after that call or after
    -- `equic_load`: if the kernel tells the handler which program is at the interface, the process
    -- exits with status 0, and leaves no program at the interface, except for the signal after the
    -- first call, which leaves the program there; if it does not, the process exits with status 1
    -- and leaves what is there. No other interface changes.
    pub interrupted_lem :
        p.equic_prog_id ≡ 0
        → results.info_ok ≡ true
        → prog_id p.equic.prog_fd ≢ 0
        → attached p.xdp p.equic_ifindex ≡ 0
        → ((s' : State) → (t : State) × (detach s' p.equic_ifindex ≡ some t))
        → (told : Bool) (moment : Moment)
        → Leaves
            (if told then 0 else 1)
            (interrupted told moment p)
            (λ j. if p.equic_ifindex == j then left told moment p else attached p.xdp j)
    unfolding proceed
    interrupted_lem fresh ok own free taken true before_link =
        sigterm-Leaves p (free ∙ sym fresh) (taken p.xdp)
    interrupted_lem fresh ok own free taken true after_link = (
      record p { xdp = s },
      ap (λ reached. proceed reached (equic_sigterm_callback x true)) link-running
          ∙ sigterm-other (record p { xdp = s }) (λ e. own (sym attached-linked ∙ e ∙ fresh)),
      programs-linked,
    )
    interrupted_lem fresh ok own free taken true after_load =
        let (p', e, programs) =
          sigterm-Leaves (record p { xdp = s; equic_prog_id = prog_id p.equic.prog_fd })
            attached-linked (taken s) in
        (
          p',
          ap (λ reached. proceed reached (equic_sigterm_callback x true)) (equic_load-running ok)
              ∙ e,
          λ j.
              programs j
              ∙ ap (λ at. if p.equic_ifindex == j then 0 else at)
                  (attach_stored p.xdp p.equic.if_index p.equic.prog_fd j linking)
              ∙ inner_if p.equic_ifindex p.equic.if_index j same_index (prog_id p.equic.prog_fd)
                  (attached p.xdp j),
        )
    interrupted_lem fresh ok own free taken false before_link =
        (p, sigterm-untold p, λ j. unchanged (attached p.xdp) p.equic_ifindex j free)
    interrupted_lem fresh ok own free taken false after_link = (
      record p { xdp = s },
      ap (λ reached. proceed reached (equic_sigterm_callback x false)) link-running
          ∙ sigterm-untold (record p { xdp = s }),
      programs-linked,
    )
    interrupted_lem fresh ok own free taken false after_load =
        let loaded = record p { xdp = s; equic_prog_id = prog_id p.equic.prog_fd } in
        (
          loaded,
          ap (λ reached. proceed reached (equic_sigterm_callback x false)) (equic_load-running ok)
              ∙ sigterm-untold loaded,
          programs-linked,
        )
