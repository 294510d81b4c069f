-- ===== src/Filter/Tests.antt =====
-- The rule of src/main.cpp and a small history of packets, and the theorems at them.
use aether_plane.Base.{ℕ, ◌≡◌, refl, List, [], ◌∷◌, replicate}
use aether_plane.Packet.{Packet, default_meta, best_effort, voice_control}
use aether_plane.Filter.{
  AclRule, FilterEngine, qos_queue, accept, init, add_rule, evaluate, evaluate_rules, skips,
  class_of, make_flow_key,
}
use aether_plane.Filter.Match.{FirstMatch, evaluate-FirstMatch}
use aether_plane.Packet.Flows.{of_flow}
use aether_plane.Filter.Track.{after, find_entry, summary, find_entry-after}

abbrev rule_ssh : AclRule
rule_ssh = record {
  rule_id = 1;
  description = [];
  src_ip = 0;
  src_mask = 0;
  dest_ip = 0;
  dest_mask = 0;
  src_port_min = 0;
  src_port_max = 65535;
  dest_port_min = 22;
  dest_port_max = 22;
  protocol = 6;
  verdict = qos_queue;
  assigned_class = voice_control;
}

abbrev to_port : ℕ → Packet
to_port d = record {
  buffer = replicate 60 0;
  meta = record default_meta {
    l3_proto = 6;
    src_ip = 0xC0A80164;
    dest_ip = 0x0A000001;
    src_port = 40000;
    dest_port = d;
    timestamp_ns = d;
  };
}

abbrev history : List Packet
history = to_port 22 ∷ to_port 80 ∷ to_port 22 ∷ []

abbrev engine : FilterEngine
engine = add_rule init rule_ssh

ssh_test :
    (evaluate engine (to_port 22) best_effort ≡ (qos_queue, voice_control))
    × (evaluate engine (to_port 80) best_effort ≡ (accept, best_effort))
unfolding evaluate evaluate_rules skips class_of add_rule
ssh_test = (refl, refl)

evaluate-FirstMatch_example :
    FirstMatch
      (engine.rules)
      (to_port 22).meta
      best_effort
      (evaluate engine (to_port 22) best_effort)
evaluate-FirstMatch_example = evaluate-FirstMatch engine (to_port 22) best_effort

find_entry-after_example :
    find_entry (make_flow_key (to_port 22).meta) (after init history).conntrack_table
    ≡ summary (of_flow (to_port 22).meta history)
find_entry-after_example = find_entry-after (to_port 22).meta init history refl
