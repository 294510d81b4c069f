-- ===== src/Filter/Match.antt =====
-- `evaluate` is the first match: when a rule matches a packet, and which rule decides.
use aether_plane.Base.{
  ◌≤◌, ◌≡◌, refl, ap, ◌∙◌, sym, ◌≢◌, ◌⊎◌, inl, inr, ◌↔◌, false, List, [], ◌∷◌, ◌++◌, bit_and, arith,
  Bool-cases,
}
use mathlib.Core.Bool.{false≢true}
use aether_plane.Packet.{Packet, PacketMeta, TrafficClass}
use aether_plane.Filter.{
  FilterVerdict, accept, drop, reject, qos_queue, AclRule, FilterEngine, skips, class_of,
  evaluate_rules, evaluate,
}

-- The rule's conditions: 0 as protocol or mask stands for any, and the ports lie in closed ranges.
abbrev pub Matches : AclRule → PacketMeta → Type 0
Matches r m =
    ((r.protocol ≡ 0) ⊎ (r.protocol ≡ m.l3_proto))
    × ((r.src_mask ≡ 0) ⊎ (bit_and m.src_ip r.src_mask ≡ bit_and r.src_ip r.src_mask))
    × ((r.dest_mask ≡ 0) ⊎ (bit_and m.dest_ip r.dest_mask ≡ bit_and r.dest_ip r.dest_mask))
    × (r.src_port_min ≤ m.src_port)
    × (m.src_port ≤ r.src_port_max)
    × (r.dest_port_min ≤ m.dest_port)
    × (m.dest_port ≤ r.dest_port_max)

skips-Matches : (r : AclRule) (m : PacketMeta) → (skips r m ≡ false) ↔ Matches r m
unfolding skips
skips-Matches r m = ground arith

-- No rule of the list matches.
abbrev pub NoneMatch : List AclRule → PacketMeta → Type 0
NoneMatch [] m = Unit {0}
NoneMatch (r ∷ rules) m = (¬ Matches r m) × NoneMatch rules m

-- The verdict is the rule's, and the class too if the rule queues.
abbrev pub Decides : AclRule → TrafficClass → FilterVerdict × TrafficClass → Type 0
Decides r out_class answer =
    (answer.0 ≡ r.verdict)
    × (((r.verdict ≡ qos_queue) × (answer.1 ≡ r.assigned_class))
        ⊎ ((r.verdict ≢ qos_queue) × (answer.1 ≡ out_class)))

-- The first rule that matches decides; without one the packet is accepted and the class stays.
abbrev pub FirstMatch :
    List AclRule → PacketMeta → TrafficClass → FilterVerdict × TrafficClass → Type 0
FirstMatch rules m out_class answer =
    (NoneMatch rules m × (answer ≡ (accept, out_class)))
    ⊎ ((before : List AclRule) × (r : AclRule) × (after : List AclRule) × (rules
          ≡ before ++ (r ∷ after))
        × NoneMatch before m
        × Matches r m
        × Decides r out_class answer)

class_of-Decides :
    (r : AclRule) (v : FilterVerdict) (out_class : TrafficClass)
    → r.verdict ≡ v
    → Decides r out_class (v, class_of r v out_class)
unfolding class_of
class_of-Decides r qos_queue out_class e = (sym e, inl (e, refl))
class_of-Decides r accept out_class e = (sym e, inr (λ h. cc, refl))
class_of-Decides r drop out_class e = (sym e, inr (λ h. cc, refl))
class_of-Decides r reject out_class e = (sym e, inr (λ h. cc, refl))

evaluate_rules-FirstMatch :
    (rules : List AclRule) (m : PacketMeta) (out_class : TrafficClass)
    → FirstMatch rules m out_class (evaluate_rules rules m out_class)
unfolding evaluate_rules
evaluate_rules-FirstMatch [] m out_class = inl (tt, refl)
evaluate_rules-FirstMatch (r ∷ rules) m out_class = elim (Bool-cases (skips r m)) [
  | inl s ↦
      rw s
        let no : ¬ Matches r m = λ h. false≢true (sym ((skips-Matches r m).1 h) ∙ s) in
          (elim (evaluate_rules-FirstMatch rules m out_class) [
            | inl (none_match, e) ↦ inl ((no, none_match), e)
            | inr (before, q, after, e, none_match, h, d) ↦
                inr (r ∷ before, q, after, ap (λ t. r ∷ t) e, (no, none_match), h, d)
          ])
  | inr s ↦ rw s (
      inr (
        [],
        r,
        rules,
        refl,
        tt,
        (skips-Matches r m).0 s,
        class_of-Decides r r.verdict out_class refl,
      ))
]

-- `evaluate` answers by the first rule that matches the packet: its verdict, and its class if the verdict is
-- to queue, else the class passed in. When no rule matches it accepts and keeps the class.
pub evaluate-FirstMatch :
    (e : FilterEngine) (pkt : Packet) (out_class : TrafficClass)
    → FirstMatch e.rules pkt.meta out_class (evaluate e pkt out_class)
unfolding evaluate
evaluate-FirstMatch e pkt out_class = evaluate_rules-FirstMatch e.rules pkt.meta out_class
