-- ===== src/Xdp.antt =====
-- include/core/xdp_hook.hpp and src/core/xdp_hook.cpp: `XDPHookEngine`, the chain of attached programs.
pub mod Verdict
mod Tests
use aether_plane.Base.{ℕ, Bool, true, List, [], ◌∷◌, ◌++◌, add64}
use aether_plane.Packet.{Packet}

pub data XdpAction : Type 0 where
  xdp_aborted xdp_drop xdp_pass xdp_tx xdp_redirect : XdpAction

pub record XdpMeta : Type 0 where
  pub rx_ring_index : ℕ
  pub redirect_ifindex : ℕ
  pub cpu_cycles_spent : ℕ

-- A program may change the packet and the metadata.
abbrev pub XdpProgram : Type 0
XdpProgram = Packet → XdpMeta → XdpAction × Packet × XdpMeta

pub record XdpHookEngine : Type 0 where
  pub attached_programs : List (List ℕ × XdpProgram)
  pub total_processed : ℕ
  pub total_dropped : ℕ
  pub total_redirected : ℕ

abbrev pub init : XdpHookEngine
init = record {
  attached_programs = [];
  total_processed = 0;
  total_dropped = 0;
  total_redirected = 0;
}

unfoldable pub attach_program : XdpHookEngine → List ℕ → XdpProgram → XdpHookEngine
attach_program e name prog = record e {
  attached_programs = e.attached_programs ++ ((name, prog) ∷ []);
}

unfoldable pub detach_all : XdpHookEngine → XdpHookEngine
detach_all e = record e { attached_programs = [] }

-- The answer, the packet, the metadata and the engine.
abbrev pub Outcome : Type 0
Outcome = XdpAction × Packet × XdpMeta × XdpHookEngine

-- `pkt.meta().is_drop = true`
abbrev pub mark_drop : Packet → Packet
mark_drop pkt = record pkt { meta = record (pkt.meta) { is_drop = true } }

-- The `switch`; `rest` is the outcome of the loop's next rounds.
unfoldable pub on_action : XdpAction → Packet → XdpMeta → XdpHookEngine → Outcome → Outcome
on_action xdp_drop pkt meta e rest =
    (xdp_drop, mark_drop pkt, meta, record e { total_dropped = add64 e.total_dropped 1 })
on_action xdp_redirect pkt meta e rest =
    (xdp_redirect, pkt, meta, record e { total_redirected = add64 e.total_redirected 1 })
on_action xdp_tx pkt meta e rest = (xdp_tx, pkt, meta, e)
on_action xdp_aborted pkt meta e rest =
    (xdp_aborted, pkt, meta, record e { total_dropped = add64 e.total_dropped 1 })
on_action xdp_pass pkt meta e rest = rest

unfoldable pub run_programs :
    List (List ℕ × XdpProgram) → Packet → XdpMeta → XdpHookEngine → Outcome
run_programs [] pkt meta e = (xdp_pass, pkt, meta, e)
run_programs ((name, prog) ∷ programs) pkt meta e =
    let (action, pkt', meta') = prog pkt meta in
    let rest = run_programs programs pkt' meta' e in on_action action pkt' meta' e rest

-- The early return for an empty chain is the loop's end.
unfoldable pub process_packet : XdpHookEngine → Packet → XdpMeta → Outcome
process_packet e pkt meta =
    run_programs e.attached_programs pkt meta
      (record e { total_processed = add64 e.total_processed 1 })
