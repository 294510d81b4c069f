-- ===== src/Xdp/Tests.antt =====
-- The program of src/main.cpp, which drops UDP to port 9999, behind one that passes.
use aether_plane.Base.{◌≡◌, refl, [], true, ◌==◌, ◌&&◌, if◌then◌else◌, add64}
use aether_plane.Packet.{Packet, default_meta}
use aether_plane.Xdp.{
  xdp_drop, xdp_pass, XdpMeta, XdpProgram, XdpHookEngine, init, attach_program, process_packet,
  run_programs, on_action,
}
use aether_plane.Xdp.Verdict.{Decides, process_packet-Decides}

abbrev passes : XdpProgram
passes pkt meta = (xdp_pass, pkt, meta)

abbrev ddos_mitigator : XdpProgram
ddos_mitigator pkt meta = (
  if (pkt.meta.l3_proto == 17) && (pkt.meta.dest_port == 9999) then xdp_drop else xdp_pass,
  pkt,
  meta,
)

abbrev engine : XdpHookEngine
engine = attach_program (attach_program init [] passes) [] ddos_mitigator

abbrev flood : Packet
flood = record { buffer = []; meta = record default_meta { l3_proto = 17; dest_port = 9999 } }

abbrev no_meta : XdpMeta
no_meta = record { rx_ring_index = 0; redirect_ifindex = 0; cpu_cycles_spent = 0 }

flood_test :
    let (action, pkt, meta, e) = process_packet engine flood no_meta in
    (action ≡ xdp_drop) × (pkt.meta.is_drop ≡ true) × (e.total_dropped ≡ 1)
unfolding process_packet run_programs on_action attach_program
flood_test = (refl, refl, refl)

process_packet-Decides_example :
    Decides
      (record engine { total_processed = add64 engine.total_processed 1 })
      (engine.attached_programs)
      (flood, no_meta)
      (process_packet engine flood no_meta)
process_packet-Decides_example = process_packet-Decides engine flood no_meta
