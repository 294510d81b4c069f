-- ===== src/Packet/Meta.antt =====
-- The constants, the traffic classes and the metadata record of include/core/packet.hpp.
use aether_plane.Base.{ℕ, Bool, false}

abbrev pub eth_p_ip : ℕ
eth_p_ip = 0x0800

abbrev pub eth_p_arp : ℕ
eth_p_arp = 0x0806

abbrev pub eth_p_ipv6 : ℕ
eth_p_ipv6 = 0x86DD

abbrev pub eth_p_vlan : ℕ
eth_p_vlan = 0x8100

abbrev pub ipproto_icmp : ℕ
ipproto_icmp = 1

abbrev pub ipproto_tcp : ℕ
ipproto_tcp = 6

abbrev pub ipproto_udp : ℕ
ipproto_udp = 17

pub data TrafficClass : Type 0 where
  voice_control gaming_low_lat streaming_video best_effort bulk_background : TrafficClass

-- `static_cast<uint8_t>(traffic_class)`
abbrev pub class_index : TrafficClass → ℕ
class_index voice_control = 0
class_index gaming_low_lat = 1
class_index streaming_video = 2
class_index best_effort = 3
class_index bulk_background = 4

pub record PacketMeta : Type 0 where
  pub timestamp_ns : ℕ
  pub ingress_ifindex : ℕ
  pub egress_ifindex : ℕ
  pub l2_type : ℕ
  pub l3_proto : ℕ
  pub src_ip : ℕ
  pub dest_ip : ℕ
  pub src_port : ℕ
  pub dest_port : ℕ
  pub payload_size : ℕ
  pub traffic_class : TrafficClass
  pub is_drop : Bool

-- The default member initialisers.
abbrev pub default_meta : PacketMeta
default_meta = record {
  timestamp_ns = 0;
  ingress_ifindex = 0;
  egress_ifindex = 0;
  l2_type = 0;
  l3_proto = 0;
  src_ip = 0;
  dest_ip = 0;
  src_port = 0;
  dest_port = 0;
  payload_size = 0;
  traffic_class = best_effort;
  is_drop = false;
}
