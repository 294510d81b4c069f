-- ===== src/Netdev.antt =====
-- include/core/virtual_netdev.hpp and src/core/virtual_netdev.cpp: `VirtualNetDev`, a receive and a transmit
-- ring with their counters.
pub mod Counters
mod Tests
use aether_plane.Base.{ℕ, Bool, true, false, List, [], if◌then◌else◌, add64}
use aether_plane.Packet.{Packet, default_meta}
use aether_plane.Ring.{Ring}
use aether_plane.Ring

abbrev pub rx_ring_size : ℕ
rx_ring_size = 1024

abbrev pub tx_ring_size : ℕ
tx_ring_size = 1024

pub record VirtualNetDev : Type 0 where
  pub ifindex : ℕ
  pub name : List ℕ
  pub mac : List ℕ
  pub rx_ring : Ring Packet
  pub tx_ring : Ring Packet
  pub rx_packets : ℕ
  pub tx_packets : ℕ
  pub rx_drops : ℕ
  pub tx_drops : ℕ

-- `Packet()`
abbrev pub no_packet : Packet
no_packet = record { buffer = []; meta = default_meta }

unfoldable pub init : ℕ → List ℕ → List ℕ → VirtualNetDev
init ifindex name mac = record {
  ifindex = ifindex;
  name = name;
  mac = mac;
  rx_ring = Ring.init rx_ring_size no_packet;
  tx_ring = Ring.init tx_ring_size no_packet;
  rx_packets = 0;
  tx_packets = 0;
  rx_drops = 0;
  tx_drops = 0;
}

unfoldable pub enqueue_rx : VirtualNetDev → Packet → Bool × VirtualNetDev
enqueue_rx d pkt =
    let (done, ring) = Ring.push rx_ring_size d.rx_ring pkt in
    if done
    then (true, record d { rx_ring = ring; rx_packets = add64 d.rx_packets 1 })
    else (false, record d { rx_ring = ring; rx_drops = add64 d.rx_drops 1 })

-- `pkt` is the reference parameter.
unfoldable pub dequeue_rx : VirtualNetDev → Packet → Bool × Packet × VirtualNetDev
dequeue_rx d pkt =
    let (done, out, ring) = Ring.pop rx_ring_size d.rx_ring pkt in
    (done, out, record d { rx_ring = ring })

unfoldable pub enqueue_tx : VirtualNetDev → Packet → Bool × VirtualNetDev
enqueue_tx d pkt =
    let (done, ring) = Ring.push tx_ring_size d.tx_ring pkt in
    if done
    then (true, record d { tx_ring = ring; tx_packets = add64 d.tx_packets 1 })
    else (false, record d { tx_ring = ring; tx_drops = add64 d.tx_drops 1 })

unfoldable pub dequeue_tx : VirtualNetDev → Packet → Bool × Packet × VirtualNetDev
dequeue_tx d pkt =
    let (done, out, ring) = Ring.pop tx_ring_size d.tx_ring pkt in
    (done, out, record d { tx_ring = ring })

unfoldable pub rx_depth : VirtualNetDev → ℕ
rx_depth d = Ring.size d.rx_ring

unfoldable pub tx_depth : VirtualNetDev → ℕ
tx_depth d = Ring.size d.tx_ring
