-- ===== src/Codel/Sound.antt =====
-- The invariant of `FQCoDelScheduler` and the measure of its `dequeue`.
use aether_plane.Base.{
  ℕ, ◌+◌, ◌-◌, ◌/◌, ◌^◌, ◌≤◌, ◌<◌, ◌≡◌, sym, ap, ◌∙◌, subst, ◌⊎◌, List, [], ◌∷◌, ◌++◌, arith, leb,
  ◌==◌, if◌then◌else◌, length, u64, append_assoc,
}
use aether_plane.Base.Double.{Double}
use aether_plane.Base.Sums.{sum_over, sum_over_cong}
use aether_plane.Packet.{Packet, size}
use aether_plane.Xsk.Frames.{occurrences}
use aether_plane.Codel.{FlowQueue, FqCodel}

abbrev pub AreSmall : List Packet → Type 0
AreSmall [] = Unit {0}
AreSmall (p ∷ q) = (size p < 2 ^ 30) × AreSmall q

abbrev pub AreFlows : List ℕ → Type 0
AreFlows [] = Unit {0}
AreFlows (i ∷ is) = (i < 1024) × AreFlows is

-- A deficit of at most one quantum, and a debt of less than one packet.
abbrev pub IsDeficit : ℕ → Type 0
IsDeficit d = (d ≤ 1514) ⊎ ((2 ^ 32 - 2 ^ 30 ≤ d) × (d < 2 ^ 32))

-- How many quanta a deficit needs to become positive.
unfoldable pub quanta : ℕ → ℕ
quanta d = if d == 0 then 1 else if leb (2 ^ 31) d then (2 ^ 32 - d) / 1514 + 1 else 0

-- How many rounds the packets can take at most: one each, and one for each quantum that is to be paid.
unfoldable pub packet_rounds : List Packet → ℕ
packet_rounds [] = 0
packet_rounds (p ∷ q) = 2 + size p / 1514 + packet_rounds q

abbrev pub flow_rounds : FlowQueue → ℕ
flow_rounds flow = quanta flow.deficit + packet_rounds flow.packets

abbrev pub flow_length : FlowQueue → ℕ
flow_length flow = length flow.packets

-- `xs` is what is left of `ys` when packets left at its front.
abbrev pub IsTail : List Packet → List Packet → Type 0
IsTail xs ys = (gone : List Packet) × (ys ≡ gone ++ xs)

IsTail-trans : {xs ys zs : List Packet} → IsTail xs ys → IsTail ys zs → IsTail xs zs
IsTail-trans {xs} (a, e) (b, f) = (b ++ a, f ∙ ap (λ t. b ++ t) e ∙ sym (append_assoc b a xs))

module _ (D : Double) where
  pub record IsSound (s : FqCodel D) : Type 0 where
    pub deficits : (i : ℕ) → IsDeficit (s.flows i).deficit
    pub small : (i : ℕ) → AreSmall (s.flows i).packets
    pub new_below : AreFlows s.new_flows
    pub old_below : AreFlows s.old_flows
    -- A flow with packets is in one of the lists.
    pub listed :
        (i : ℕ)
        → 0 < length (s.flows i).packets
        → 0 < occurrences i s.new_flows + occurrences i s.old_flows

  -- The rounds that a `dequeue` can take at most.
  unfoldable pub rounds_left : FqCodel D → ℕ
  rounds_left s = sum_over flow_rounds 1024 s.flows + length s.new_flows + length s.old_flows

  -- The packets in the flows.
  unfoldable pub queued : FqCodel D → ℕ
  queued s = sum_over flow_length 1024 s.flows

  -- Two states that differ only in what the invariant and the measure do not read.
  pub record Keeps (s t : FqCodel D) : Type 0 where
    pub packets : (i : ℕ) → (t.flows i).packets ≡ (s.flows i).packets
    pub deficits : (i : ℕ) → (t.flows i).deficit ≡ (s.flows i).deficit
    pub new_flows : t.new_flows ≡ s.new_flows
    pub old_flows : t.old_flows ≡ s.old_flows

  pub Keeps-trans : {s t u : FqCodel D} → Keeps s t → Keeps t u → Keeps s u
  Keeps-trans k l = record {
    packets = λ i. l.packets i ∙ k.packets i;
    deficits = λ i. l.deficits i ∙ k.deficits i;
    new_flows = l.new_flows ∙ k.new_flows;
    old_flows = l.old_flows ∙ k.old_flows;
  }

  pub Keeps-IsSound : {s t : FqCodel D} → Keeps s t → IsSound s → IsSound t
  Keeps-IsSound {s} {t} k v = record {
    deficits = λ i. subst IsDeficit (sym (k.deficits i)) (v.deficits i);
    small = λ i. subst AreSmall (sym (k.packets i)) (v.small i);
    new_below = subst AreFlows (sym k.new_flows) v.new_below;
    old_below = subst AreFlows (sym k.old_flows) v.old_below;
    listed = λ i h.
        let still = v.listed i (subst (λ q. 0 < length q) (k.packets i) h) in
        subst (λ q. 0 < occurrences i q + occurrences i t.old_flows) (sym k.new_flows)
          (subst (λ q. 0 < occurrences i s.new_flows + occurrences i q) (sym k.old_flows) still);
  }

  pub Keeps-rounds_left : {s t : FqCodel D} → Keeps s t → rounds_left t ≡ rounds_left s
  unfolding rounds_left
  Keeps-rounds_left {s} {t} k = omega (
    arith,
    sum_over_cong flow_rounds 1024 t.flows s.flows
        (λ i. omega (arith, ap quanta (k.deficits i), ap packet_rounds (k.packets i))),
    ap (length {A = ℕ}) k.new_flows,
    ap (length {A = ℕ}) k.old_flows,
  )

  pub Keeps-queued : {s t : FqCodel D} → Keeps s t → queued t ≡ queued s
  unfolding queued
  Keeps-queued {s} {t} k =
      sum_over_cong flow_length 1024 t.flows s.flows (λ i. ap (length {A = Packet}) (k.packets i))

  -- From `s` to `t` packets left the flows at their fronts, and all but `sent` of them were counted as dropped.
  pub record Leaves (s t : FqCodel D) (sent : ℕ) : Type 0 where
    pub tails : (i : ℕ) → IsTail (t.flows i).packets (s.flows i).packets
    pub counted : u64 (queued t + t.total_drops + sent) ≡ u64 (queued s + s.total_drops)

  pub Leaves-trans : {s t u : FqCodel D} {n : ℕ} → Leaves s t 0 → Leaves t u n → Leaves s u n
  Leaves-trans {s} {t} {u} {n} a b = record {
    tails = λ i. IsTail-trans (b.tails i) (a.tails i);
    counted = omega (arith, a.counted, b.counted);
  }

  -- The packet was at the front of its flow when it was sent.
  abbrev pub SentFrom : FqCodel D → Packet → FqCodel D → Type 0
  SentFrom s p t =
      (j : ℕ) × (gone : List Packet) × ((s.flows j).packets ≡ gone ++ (p ∷ (t.flows j).packets))

  pub SentFrom-earlier :
      {s t : FqCodel D} {n : ℕ} (p : Packet) (u : FqCodel D)
      → Leaves s t n
      → SentFrom t p u
      → SentFrom s p u
  SentFrom-earlier {s} {t} {n} p u l (j, gone, e) =
      let (before, f) = l.tails j in
      (
        j,
        before ++ gone,
        f ∙ ap (λ q. before ++ q) e ∙ sym (append_assoc before gone (p ∷ (u.flows j).packets)),
      )
