-- ===== src/Loader/Start.antt =====
-- The whole of the loading, as `main` of equic.c does it.
use equic.Prelude.{
  ℕ, ◌≡◌, ◌≢◌, ◌⊎◌, inl, inr, refl, sym, arith, Bool, true, false, Option, none, some, codes, ◌==◌,
  if◌then◌else◌, Bool-cases,
}
use mathlib.Core.Path.{subst}
use equic.Xdp.{Xdp}
use equic.Loader.{
  Results, Run, running, exited, Process, proceed, equic_get_interface, read_map, read_prog,
  equic_read_object, link, linked, identify, equic_load, set_up, finished, main,
}

module _ (x : Xdp) (results : Results) where
  open x use {State, attached, prog_id, attach, attach_busy, attach_stored}

  -- The hooks are those of `s`.
  abbrev pub Untouched : State → Process x → Type 0
  Untouched s p = (j : ℕ) → attached p.xdp j ≡ attached s j

  -- The program of the process is at its interface, which had none, and nothing else has changed.
  abbrev pub IsLinked : State → Process x → Type 0
  IsLinked s p =
      (attached s p.equic.if_index ≡ 0)
      × ((j : ℕ)
          → attached p.xdp j
            ≡ (if p.equic.if_index == j then prog_id p.equic.prog_fd else attached s j))

  -- How a process runs on, or ends, that has begun with the hooks of `s`.
  abbrev pub Loads : State → Run (Process x) → Type 0
  Loads s (running p) =
      IsLinked s p
      × (p.equic_ifindex ≡ p.equic.if_index)
      × (p.equic_prog_id ≡ prog_id p.equic.prog_fd)
  Loads s (exited code p) =
      (code ≡ 1) × (Untouched s p ⊎ (IsLinked s p × (results.info_ok ≡ false)))

  identify-Loads :
      (s : State) (p : Process x)
      → IsLinked s p
      → p.equic_ifindex ≡ p.equic.if_index
      → Loads s (identify x results p)
  unfolding identify
  identify-Loads s p h i =
      let known = record p { equic_prog_id = prog_id p.equic.prog_fd } in
      elim (Bool-cases results.info_ok) [
        | inl ok ↦
            subst (λ b. Loads s (if b then running known else exited 1 p)) (sym ok) (h, i, refl)
        | inr failed ↦
            subst (λ b. Loads s (if b then running known else exited 1 p)) (sym failed)
              (refl, inr (h, failed))
      ]

  -- The kernel took the program, so that there was none.
  attached-free :
      (p : Process x) (s : State)
      (d : (attached p.xdp p.equic.if_index ≡ 0) ⊎ (attached p.xdp p.equic.if_index ≢ 0))
      → attach p.xdp p.equic.if_index p.equic.prog_fd ≡ some s
      → attached p.xdp p.equic.if_index ≡ 0
  attached-free p s (inl free) h = free
  attached-free p s (inr busy) h =
      absurd (cc (attach_busy p.xdp p.equic.if_index p.equic.prog_fd busy, h))

  zero_or : (a : ℕ) → (a ≡ 0) ⊎ (a ≢ 0)
  zero_or a = omega arith

  linked-Loads :
      (p : Process x) (found : Option State)
      → attach p.xdp p.equic.if_index p.equic.prog_fd ≡ found
      → p.equic_ifindex ≡ p.equic.if_index
      → Loads p.xdp (proceed (linked x results p found) (identify x results))
  unfolding proceed linked
  linked-Loads p none h i = (refl, inl (λ j. refl))
  linked-Loads p (some s) h i =
      identify-Loads p.xdp (record p { xdp = s })
        (
          attached-free p s (zero_or (attached p.xdp p.equic.if_index)) h,
          λ j. attach_stored p.xdp p.equic.if_index p.equic.prog_fd j h,
        )
        i

  equic_load-Loads :
      (p : Process x) → p.equic_ifindex ≡ p.equic.if_index → Loads p.xdp (equic_load x results p)
  unfolding equic_load link
  equic_load-Loads p i = linked-Loads p (attach p.xdp p.equic.if_index p.equic.prog_fd) refl i

  -- A test that ends the process before the hooks are touched.
  Loads-if :
      (b : Bool) (p : Process x)
      → p.equic_ifindex ≡ p.equic.if_index
      → Loads p.xdp (proceed (if b then exited 1 p else running p) (equic_load x results))
  unfolding proceed
  Loads-if true p i = (refl, inl (λ j. refl))
  Loads-if false p i = equic_load-Loads p i

  read_prog-Loads :
      (p : Process x) (found : Option (ℕ × Option ℕ))
      → p.equic_ifindex ≡ p.equic.if_index
      → Loads p.xdp (proceed (read_prog x results p found) (equic_load x results))
  unfolding proceed read_prog read_map
  read_prog-Loads p none i = (refl, inl (λ j. refl))
  read_prog-Loads p (some (fd, none)) i = (refl, inl (λ j. refl))
  read_prog-Loads p (some (fd, some counters)) i =
      Loads-if (fd == 0)
        (record p { equic = record p.equic { prog_fd = fd; counters_map_fd = counters } }) i

  -- What follows the reading of the interface.
  abbrev prepared : Process x → Run (Process x)
  prepared p =
      proceed (equic_read_object x results p (codes "/src/equic/bin/equic_kern.o"))
        (equic_load x results)

  named-Loads :
      (b : Bool) (p : Process x)
      → p.equic_ifindex ≡ p.equic.if_index
      → Loads p.xdp (proceed (if b then exited 1 p else running p) prepared)
  unfolding proceed equic_read_object
  named-Loads true p i = (refl, inl (λ j. refl))
  named-Loads false p i =
      read_prog-Loads p (results.bpf_prog_load_xattr (codes "/src/equic/bin/equic_kern.o")) i

  pub set_up-Loads : (p : Process x) → Loads p.xdp (set_up x results p)
  unfolding set_up equic_get_interface
  set_up-Loads p =
      let i = results.if_nametoindex (codes "eth0") in
      named-Loads (i == 0) (record p { equic = record p.equic { if_index = i }; equic_ifindex = i })
        refl

  -- How `main` ends.
  abbrev pub Ends : State → Run (Process x) → Type 0
  Ends s (running p) = ⊥
  Ends s (exited code p) =
      ((code ≡ 0) × IsLinked s p × (p.equic_prog_id ≡ prog_id p.equic.prog_fd))
      ⊎ ((code ≡ 1) × (Untouched s p ⊎ (IsLinked s p × (results.info_ok ≡ false))))

  finished-Ends :
      (s : State) (outcome : Run (Process x))
      → Loads s outcome
      → Ends s (finished x results outcome)
  unfolding finished
  finished-Ends s (running p) (h, i, e) = inl (refl, h, e)
  finished-Ends s (exited code p) h = inr h

  -- Whatever the system answers: main of equic.c ends with status 0, its interface had no program and
  -- has that of the object now, whose identifier is stored, and no other interface changes; or it ends
  -- with status 1 and no interface changes, unless only the program's information could not be read,
  -- which leaves the program at the interface.
  pub main_lem : (p : Process x) → Ends p.xdp (main x results p)
  unfolding main
  main_lem p = finished-Ends p.xdp (set_up x results p) (set_up-Loads p)
