-- ===== src/Packet/Flows.antt =====
-- Packets of one flow: the same addresses, ports and protocol, and keys that are printed from these.
use aether_plane.Base.{
  ℕ, ◌+◌, ◌≡◌, sym, ap, subst, ◌∙◌, ◌↔◌, Bool, false, ◌&&◌, List, [], ◌∷◌, ◌++◌, append-nil, arith,
  ◌==◌, inl, inr, if◌then◌else◌, Bool-cases, length, suc,
}
use aether_plane.Base.Text.{
  decimal, is_digit, scan, scan-decimal, scan-separated, same_text, same_text_refl, same_text-eq,
}
use mathlib.Core.List.{tail-eq_of_cons-eq}
use aether_plane.Packet.{Packet, PacketMeta, size}

abbrev pub SameFlow : PacketMeta → PacketMeta → Type 0
SameFlow m n =
    (m.src_ip ≡ n.src_ip)
    × (m.src_port ≡ n.src_port)
    × (m.dest_ip ≡ n.dest_ip)
    × (m.dest_port ≡ n.dest_port)
    × (m.l3_proto ≡ n.l3_proto)

abbrev pub same_flow : PacketMeta → PacketMeta → Bool
same_flow m n =
    (m.src_ip == n.src_ip)
    && (m.src_port == n.src_port)
    && (m.dest_ip == n.dest_ip)
    && (m.dest_port == n.dest_port)
    && (m.l3_proto == n.l3_proto)

-- One field and its separator read back.
pub read_field :
    {a b : ℕ} {s t : List ℕ} (c : ℕ)
    → is_digit c ≡ false
    → decimal a ++ (c ∷ s) ≡ decimal b ++ (c ∷ t)
    → (a ≡ b) × (s ≡ t)
read_field {a} {b} {s} {t} c h e =
    let k : (a, c ∷ s) ≡ (b, c ∷ t) =
      sym (scan-separated a c s h) ∙ ap (scan 0) e ∙ scan-separated b c t h in
    (ap (λ r. r.0) k, tail-eq_of_cons-eq (ap (λ r. r.1) k))

pub read_last : {a b : ℕ} → decimal a ≡ decimal b → a ≡ b
read_last {a} {b} e =
    ap (λ r. r.0)
      (sym (scan-decimal a [])
        ∙ ap (scan 0) (append-nil (decimal a) ∙ e ∙ sym (append-nil (decimal b)))
        ∙ scan-decimal b [])

-- The comparison of keys that tell flows apart is the comparison of the five fields.
pub same_text-same_flow :
    (key : PacketMeta → List ℕ)
    → ((m n : PacketMeta) → (key m ≡ key n) ↔ SameFlow m n)
    → (m n : PacketMeta) → same_text (key m) (key n) ≡ same_flow m n
same_text-same_flow key apart m n = elim (Bool-cases (same_text (key m) (key n))) [
  | inl e ↦
      let f : SameFlow m n = (apart m n).0 (same_text-eq (key m) (key n) e) in e ∙ ground arith
  | inr ne ↦ elim (Bool-cases (same_flow m n)) [
    | inl e ↦
        let f : SameFlow m n = ground arith in
        subst (λ k. same_text (key m) k ≡ same_flow m n) ((apart m n).1 f)
          (same_text_refl (key m) ∙ sym e)
    | inr e ↦ ne ∙ sym e
  ]
]

-- The packets of the history that belong to the flow of `m`.
abbrev pub of_flow : PacketMeta → List Packet → List Packet
of_flow m [] = []
of_flow m (p ∷ earlier) =
    let rest = of_flow m earlier in if same_flow p.meta m then p ∷ rest else rest

abbrev pub sum_sizes : List Packet → ℕ
sum_sizes [] = 0
sum_sizes (p ∷ q) = size p + sum_sizes q

-- The packets of the history that are the first of their flow.
abbrev pub connections : List Packet → ℕ
connections [] = 0
connections (p ∷ earlier) =
    let rest = connections earlier in
    if length (of_flow p.meta earlier) == 0 then suc rest else rest
