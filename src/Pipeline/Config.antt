-- ===== src/Pipeline/Config.antt =====
-- What `main` of src/main.cpp sets up: the names, the routes, the XDP program and the filter rule.
use aether_plane.Base.{◌&&◌, List, [], ◌∷◌, ℕ, ◌==◌, if◌then◌else◌}
use aether_plane.Packet.{Packet, voice_control, ipproto_tcp, ipproto_udp}
use aether_plane.Xdp.{XdpAction, XdpMeta, xdp_drop, xdp_pass}
use aether_plane.Filter.{AclRule, qos_queue}

-- The text of the literals, as character codes.
abbrev pub eth0_name : List ℕ
eth0_name = 101 ∷ 116 ∷ 104 ∷ 48 ∷ 95 ∷ 119 ∷ 97 ∷ 110 ∷ []

abbrev pub wlan0_name : List ℕ
wlan0_name = 119 ∷ 108 ∷ 97 ∷ 110 ∷ 48 ∷ 95 ∷ 108 ∷ 97 ∷ 110 ∷ []

-- `192.168.1.0/24`
abbrev pub local_cidr : List ℕ
local_cidr = 49 ∷ 57 ∷ 50 ∷ 46 ∷ 49 ∷ 54 ∷ 56 ∷ 46 ∷ 49 ∷ 46 ∷ 48 ∷ 47 ∷ 50 ∷ 52 ∷ []

-- `192.168.1.1`
abbrev pub local_hop : List ℕ
local_hop = 49 ∷ 57 ∷ 50 ∷ 46 ∷ 49 ∷ 54 ∷ 56 ∷ 46 ∷ 49 ∷ 46 ∷ 49 ∷ []

-- `10.0.0.0/8`
abbrev pub private_cidr : List ℕ
private_cidr = 49 ∷ 48 ∷ 46 ∷ 48 ∷ 46 ∷ 48 ∷ 46 ∷ 48 ∷ 47 ∷ 56 ∷ []

-- `10.0.0.1`
abbrev pub private_hop : List ℕ
private_hop = 49 ∷ 48 ∷ 46 ∷ 48 ∷ 46 ∷ 48 ∷ 46 ∷ 49 ∷ []

-- `0.0.0.0/0`
abbrev pub default_cidr : List ℕ
default_cidr = 48 ∷ 46 ∷ 48 ∷ 46 ∷ 48 ∷ 46 ∷ 48 ∷ 47 ∷ 48 ∷ []

-- `192.168.1.254`
abbrev pub default_hop : List ℕ
default_hop = 49 ∷ 57 ∷ 50 ∷ 46 ∷ 49 ∷ 54 ∷ 56 ∷ 46 ∷ 49 ∷ 46 ∷ 50 ∷ 53 ∷ 52 ∷ []

-- `xdp_ddos_mitigator`
abbrev pub mitigator_text : List ℕ
mitigator_text =
    120 ∷ 100 ∷ 112 ∷ 95 ∷ 100 ∷ 100 ∷ 111 ∷ 115 ∷ 95 ∷ 109 ∷ 105 ∷ 116 ∷ 105 ∷ 103 ∷ 97 ∷ 116 ∷ 111
    ∷ 114 ∷ []

-- The program `xdp_ddos_mitigator`.
unfoldable pub xdp_ddos_mitigator : Packet → XdpMeta → XdpAction × Packet × XdpMeta
xdp_ddos_mitigator pkt meta =
    if (pkt.meta.l3_proto == ipproto_udp) && (pkt.meta.dest_port == 9999)
    then (xdp_drop, pkt, meta)
    else (xdp_pass, pkt, meta)

-- `Prioritize SSH Control Traffic`
abbrev ssh_text : List ℕ
ssh_text =
    80 ∷ 114 ∷ 105 ∷ 111 ∷ 114 ∷ 105 ∷ 116 ∷ 105 ∷ 122 ∷ 101 ∷ 32 ∷ 83 ∷ 83 ∷ 72 ∷ 32 ∷ 67 ∷ 111
    ∷ 110 ∷ 116 ∷ 114 ∷ 111 ∷ 108 ∷ 32 ∷ 84 ∷ 114 ∷ 97 ∷ 102 ∷ 102 ∷ 105 ∷ 99 ∷ []

-- `rule_ssh`; the other members have their default values.
abbrev pub rule_ssh : AclRule
rule_ssh = record {
  rule_id = 1;
  description = ssh_text;
  src_ip = 0;
  src_mask = 0;
  dest_ip = 0;
  dest_mask = 0;
  src_port_min = 0;
  src_port_max = 65535;
  dest_port_min = 22;
  dest_port_max = 22;
  protocol = ipproto_tcp;
  verdict = qos_queue;
  assigned_class = voice_control;
}
