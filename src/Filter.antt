-- ===== src/Filter.antt =====
-- include/core/filter_engine.hpp and src/core/filter_engine.cpp: `FilterEngine`, the access control rules
-- and the connection table.
pub mod Match
pub mod Key
pub mod Track
mod Tests
use aether_plane.Base.{
  ℕ, Bool, true, false, not, ◌&&◌, ◌||◌, List, [], ◌∷◌, ◌++◌, bit_and, ltb, leb, ◌==◌,
  if◌then◌else◌, length, add64,
}
use aether_plane.Base.Text.{decimal, same_text}
use aether_plane.Packet.{Packet, PacketMeta, TrafficClass, size}

pub data FilterVerdict : Type 0 where
  accept drop reject qos_queue : FilterVerdict

pub record AclRule : Type 0 where
  pub rule_id : ℕ
  pub description : List ℕ
  pub src_ip : ℕ
  pub src_mask : ℕ
  pub dest_ip : ℕ
  pub dest_mask : ℕ
  pub src_port_min : ℕ
  pub src_port_max : ℕ
  pub dest_port_min : ℕ
  pub dest_port_max : ℕ
  pub protocol : ℕ
  pub verdict : FilterVerdict
  pub assigned_class : TrafficClass

pub record ConnectionState : Type 0 where
  pub last_seen_ns : ℕ
  pub packets_forwarded : ℕ
  pub bytes_forwarded : ℕ
  pub is_established : Bool

-- The default member initialisers.
abbrev pub new_connection : ConnectionState
new_connection = record {
  last_seen_ns = 0;
  packets_forwarded = 0;
  bytes_forwarded = 0;
  is_established = false;
}

-- `std::unordered_map`, of which only the keys and their values matter here.
abbrev pub ConnTable : Type 0
ConnTable = List (List ℕ × ConnectionState)

pub record FilterEngine : Type 0 where
  pub rules : List AclRule
  pub conntrack_table : ConnTable

abbrev pub init : FilterEngine
init = record { rules = []; conntrack_table = [] }

unfoldable pub add_rule : FilterEngine → AclRule → FilterEngine
add_rule e rule = record e { rules = e.rules ++ (rule ∷ []) }

unfoldable pub clear_rules : FilterEngine → FilterEngine
clear_rules e = record e { rules = [] }

-- `src_ip:src_port->dest_ip:dest_port/l3_proto`
unfoldable pub make_flow_key : PacketMeta → List ℕ
make_flow_key m =
    decimal m.src_ip
    ++ (58 ∷ decimal m.src_port
        ++ (45 ∷ 62 ∷ decimal m.dest_ip ++ (58 ∷ decimal m.dest_port ++ (47 ∷ decimal m.l3_proto))))

-- Whether one of the tests says `continue`.
unfoldable pub skips : AclRule → PacketMeta → Bool
skips r m =
    (not (r.protocol == 0) && not (r.protocol == m.l3_proto))
    || (not (r.src_mask == 0) && not (bit_and m.src_ip r.src_mask == bit_and r.src_ip r.src_mask))
    || (not (r.dest_mask == 0)
        && not (bit_and m.dest_ip r.dest_mask == bit_and r.dest_ip r.dest_mask))
    || (ltb m.src_port r.src_port_min || ltb r.src_port_max m.src_port)
    || (ltb m.dest_port r.dest_port_min || ltb r.dest_port_max m.dest_port)

-- `if (rule.verdict == FilterVerdict::QOS_QUEUE) out_class = rule.assigned_class;`
unfoldable pub class_of : AclRule → FilterVerdict → TrafficClass → TrafficClass
class_of r qos_queue out_class = r.assigned_class
class_of r accept out_class = out_class
class_of r drop out_class = out_class
class_of r reject out_class = out_class

-- The loop over the rules; `out_class` is the reference parameter.
unfoldable pub evaluate_rules :
    List AclRule → PacketMeta → TrafficClass → FilterVerdict × TrafficClass
evaluate_rules [] m out_class = (accept, out_class)
evaluate_rules (r ∷ rules) m out_class =
    let rest = evaluate_rules rules m out_class in
    if skips r m then rest else (r.verdict, class_of r r.verdict out_class)

unfoldable pub evaluate : FilterEngine → Packet → TrafficClass → FilterVerdict × TrafficClass
evaluate e pkt out_class = evaluate_rules e.rules pkt.meta out_class

-- One packet on the entry of its connection.
unfoldable pub count_packet : Packet → ConnectionState → ConnectionState
count_packet pkt c =
    let n = add64 c.packets_forwarded 1 in
    record {
      last_seen_ns = pkt.meta.timestamp_ns;
      packets_forwarded = n;
      bytes_forwarded = add64 c.bytes_forwarded (size pkt);
      is_established = if ltb 3 n then true else c.is_established;
    }

-- `auto& entry = conntrack_table_[key]`, which makes a missing entry, and the changes to it.
unfoldable pub update_entry : List ℕ → Packet → ConnTable → ConnTable
update_entry key pkt [] = (key, count_packet pkt new_connection) ∷ []
update_entry key pkt ((k, c) ∷ table) =
    let rest = update_entry key pkt table in
    if same_text k key then (k, count_packet pkt c) ∷ table else (k, c) ∷ rest

unfoldable pub update_conntrack : FilterEngine → Packet → FilterEngine
update_conntrack e pkt = record e {
  conntrack_table = update_entry (make_flow_key pkt.meta) pkt e.conntrack_table;
}

unfoldable pub active_connections : FilterEngine → ℕ
active_connections e = length e.conntrack_table
