-- ===== src/Loader.antt =====
-- src/equic_user.c, the loading of the program into the kernel and the handlers of signals that take it
-- out, and src/equic.c, which uses them.
pub mod Start
pub mod Signals
mod Tests
use equic.Prelude.{ℕ, Bool, true, false, Option, none, some, Bytes, codes, ◌==◌, if◌then◌else◌}
use equic.Xdp.{Xdp}

-- `struct equic_meta`
pub record EquicMeta : Type 0 where
  pub if_index : ℕ
  pub prog_fd : ℕ
  pub counters_map_fd : ℕ

-- What libc and libbpf give: the index of an interface, 0 on an error; the descriptors of the program
-- and of the map `counters` of an object; and whether bpf_obj_get_info_by_fd succeeds.
pub record Results : Type 0 where
  pub if_nametoindex : Bytes → ℕ
  pub bpf_prog_load_xattr : Bytes → Option (ℕ × Option ℕ)
  pub info_ok : Bool

-- A function runs on, or ends the process by a call of exit.
pub data Run (S : Type 0) : Type 0 where
  running : S → Run S
  exited : ℕ → S → Run S

-- What follows, if the first part runs on.
unfoldable pub proceed : {S : Type 0} → Run S → (S → Run S) → Run S
proceed (running s) next = next s
proceed (exited code s) next = exited code s

module _ (x : Xdp) where
  open x use {State, attached, prog_id, attach, detach}

  -- The struct, the static variables EQUIC_IFINDEX and EQUIC_PROG_ID, and the hooks.
  pub record Process : Type 0 where
    pub equic : EquicMeta
    pub equic_ifindex : ℕ
    pub equic_prog_id : ℕ
    pub xdp : State

  module _ (results : Results) where
    unfoldable pub equic_get_interface : Process → Bytes → Run Process
    equic_get_interface p if_name =
        let i = results.if_nametoindex if_name in
        let p' = record p { equic = record p.equic { if_index = i }; equic_ifindex = i } in
        if i == 0 then exited 1 p' else running p'

    pub read_map : Process → Option ℕ → Run Process
    read_map p none = exited 1 p
    read_map p (some fd) =
        let p' = record p { equic = record p.equic { counters_map_fd = fd } } in
        if p.equic.prog_fd == 0 then exited 1 p' else running p'

    pub read_prog : Process → Option (ℕ × Option ℕ) → Run Process
    unfolding read_map
    read_prog p none = exited 1 p
    read_prog p (some (fd, counters)) =
        read_map (record p { equic = record p.equic { prog_fd = fd } }) counters

    unfoldable pub equic_read_object : Process → Bytes → Run Process
    unfolding read_prog
    equic_read_object p path = read_prog p (results.bpf_prog_load_xattr path)

    pub linked : Process → Option State → Run Process
    linked p none = exited 1 p
    linked p (some s) = running (record p { xdp = s })

    -- The first call of `equic_load`.
    unfoldable pub link : Process → Run Process
    unfolding linked
    link p = linked p (attach p.xdp p.equic.if_index p.equic.prog_fd)

    -- The second one, with what follows.
    pub identify : Process → Run Process
    identify p =
        if results.info_ok
        then running (record p { equic_prog_id = prog_id p.equic.prog_fd })
        else exited 1 p

    unfoldable pub equic_load : Process → Run Process
    unfolding identify proceed
    equic_load p = proceed (link p) identify

    -- The calls that the programs make one after the other.
    unfoldable pub set_up : Process → Run Process
    set_up p =
        proceed (equic_get_interface p (codes "eth0"))
          (λ p'. proceed (equic_read_object p' (codes "/src/equic/bin/equic_kern.o")) equic_load)

    finished : Run Process → Run Process
    finished (running p) = exited 0 p
    finished (exited code p) = exited code p

    unfoldable pub main : Process → Run Process
    unfolding finished
    main p = finished (set_up p)

  -- The result of bpf_set_link_xdp_fd is not tested.
  unloaded : Process → Option State → Process
  unloaded p none = p
  unloaded p (some s) = record p { xdp = s }

  -- With the success of bpf_get_link_xdp_id.
  unfoldable pub equic_sigint_callback : Bool → Process → Run Process
  unfolding unloaded
  equic_sigint_callback false p = exited 1 p
  equic_sigint_callback true p =
      if attached p.xdp p.equic_ifindex == p.equic_prog_id
      then exited 0 (unloaded p (detach p.xdp p.equic_ifindex))
      else exited 0 p

  unfoldable pub equic_sigterm_callback : Bool → Process → Run Process
  unfolding equic_sigint_callback
  equic_sigterm_callback ok p = equic_sigint_callback ok p
