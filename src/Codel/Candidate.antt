-- ===== src/Codel/Candidate.antt =====
-- The round that takes a packet from its flow, and drops it or returns it.
use aether_plane.Base.{
  ℕ, suc, ◌+◌, ◌/◌, ◌<◌, ◌≤◌, ◌≡◌, refl, sym, ap, subst, ◌∙◌, Bool, true, false, List, [], ◌∷◌,
  arith, ◌==◌, length, update, sleb32, u64, add64, inl, inr, Bool-cases,
}
use aether_plane.Base.Double.{Double}
use aether_plane.Base.Sums.{sum_over-update}
use aether_plane.Packet.{Packet, size}
use aether_plane.Codel.{FlowQueue, FqCodel, codel_decision, codel_should_drop}
use aether_plane.Codel.Dequeue.{
  Which, new_list, old_list, without_front, dropping_flow, drop_candidate, leave_dropping,
  after_check, serve_candidate,
}
use aether_plane.Codel.Sound.{
  AreSmall, IsDeficit, IsTail, IsSound, Leaves, Keeps, Keeps-trans, Keeps-IsSound,
  Keeps-rounds_left, Keeps-queued, rounds_left, queued, flow_rounds, flow_length, packet_rounds,
  quanta,
}
use aether_plane.Codel.Deficit.{sub32-IsDeficit}
use aether_plane.Codel.Round.{Good, NewKept}

decision_keeps :
    (flow : FlowQueue) (pkt : Packet) (now_ns : ℕ)
    → let flow' = (codel_decision flow pkt now_ns).1 in
      (flow'.packets ≡ flow.packets) × (flow'.deficit ≡ flow.deficit)
unfolding codel_decision
decision_keeps flow pkt now_ns = ground arith

module _ (D : Double) where
  -- A write to one flow that leaves its packets and its deficit.
  abbrev SameAt : FlowQueue → FlowQueue → Type 0
  SameAt flow flow' = (flow'.packets ≡ flow.packets) × (flow'.deficit ≡ flow.deficit)

  update-same :
      (f : ℕ → FlowQueue) (idx : ℕ) (flow : FlowQueue)
      → SameAt (f idx) flow
      → (i : ℕ) → SameAt (f i) (update f idx flow i)
  update-same f idx flow k i = elim (Bool-cases (i == idx)) [
    | inl e ↦ let same : idx ≡ i = ground arith in rw e (subst (λ j. SameAt (f j) flow) same k)
    | inr e ↦ rw e (refl, refl)
  ]

  codel_should_drop-Keeps :
      (s : FqCodel D) (idx : ℕ) (pkt : Packet) (now_ns : ℕ)
      → Keeps D s (codel_should_drop D s idx pkt now_ns).1
  unfolding codel_should_drop
  codel_should_drop-Keeps s idx pkt now_ns =
      let same =
        update-same s.flows idx (codel_decision (s.flows idx) pkt now_ns).1
          (decision_keeps (s.flows idx) pkt now_ns) in
      record {
        packets = λ i. (same i).0;
        deficits = λ i. (same i).1;
        new_flows = refl;
        old_flows = refl;
      }

  codel_should_drop-drops :
      (s : FqCodel D) (idx : ℕ) (pkt : Packet) (now_ns : ℕ)
      → (codel_should_drop D s idx pkt now_ns).1.total_drops ≡ s.total_drops
  unfolding codel_should_drop
  codel_should_drop-drops s idx pkt now_ns = refl

  drop_candidate-Keeps :
      (s : FqCodel D) (idx now_ns : ℕ)
      → Keeps D s (drop_candidate D s idx now_ns)
        × ((drop_candidate D s idx now_ns).total_drops ≡ add64 s.total_drops 1)
  unfolding drop_candidate dropping_flow
  drop_candidate-Keeps s idx now_ns =
      let same = update-same s.flows idx (dropping_flow D (s.flows idx) now_ns) (refl, refl) in
      (
        record {
          packets = λ i. (same i).0;
          deficits = λ i. (same i).1;
          new_flows = refl;
          old_flows = refl;
        },
        refl,
      )

  leave_dropping-Keeps :
      (s : FqCodel D) (idx : ℕ)
      → Keeps D s (leave_dropping D s idx) × ((leave_dropping D s idx).total_drops ≡ s.total_drops)
  unfolding leave_dropping
  leave_dropping-Keeps s idx = (
    record {
      packets = λ i. ground arith;
      deficits = λ i. ground arith;
      new_flows = ground arith;
      old_flows = ground arith;
    },
    ground arith,
  )

  kept_lists : (w : Which) (s t : FqCodel D) → t.new_flows ≡ s.new_flows → NewKept D w s t
  kept_lists new_list s t e = tt
  kept_lists old_list s t e = e

  -- The state after the candidate has left its flow.
  abbrev taken : FqCodel D → ℕ → Packet → List Packet → FqCodel D
  taken s idx candidate packets = record s {
    flows = update s.flows idx (without_front D (s.flows idx) candidate packets);
  }

  module _ (s : FqCodel D) (idx : ℕ) (candidate : Packet) (packets : List Packet) (v : IsSound D s)
      (lt : idx < 1024) (front : (s.flows idx).packets ≡ candidate ∷ packets)
      (paid : sleb32 (s.flows idx).deficit 0 ≡ false) where
    taken-deficit :
        let d = (without_front D (s.flows idx) candidate packets).deficit in
        IsDeficit d × (quanta d ≤ size candidate / 1514 + 1)
    taken-deficit =
        sub32-IsDeficit (s.flows idx).deficit (size candidate) (v.deficits idx) paid
          (subst AreSmall front (v.small idx)).0

    taken-IsSound : IsSound D (taken s idx candidate packets)
    taken-IsSound =
        let len : length (s.flows idx).packets ≡ suc (length packets) =
          ap (length {A = Packet}) front in
        record {
          deficits = λ i. elim (Bool-cases (i == idx)) [
            | inl e ↦ rw e (taken-deficit.0)
            | inr e ↦ rw e (v.deficits i)
          ];
          small = λ i. elim (Bool-cases (i == idx)) [
            | inl e ↦ rw e (subst AreSmall front (v.small idx)).1
            | inr e ↦ rw e (v.small i)
          ];
          new_below = v.new_below;
          old_below = v.old_below;
          listed = λ i h. ground (arith, v.listed i, len);
        }

    taken-rounds_left : rounds_left D (taken s idx candidate packets) < rounds_left D s
    unfolding rounds_left packet_rounds
    taken-rounds_left = omega (
      arith,
      taken-deficit.1,
      ap packet_rounds front,
      sum_over-update flow_rounds 1024 s.flows idx (without_front D (s.flows idx) candidate packets)
          lt,
    )

    taken-queued : queued D (taken s idx candidate packets) + 1 ≡ queued D s
    unfolding queued
    taken-queued = omega (
      arith,
      ap (length {A = Packet}) front,
      sum_over-update flow_length 1024 s.flows idx (without_front D (s.flows idx) candidate packets)
          lt,
    )

    taken-tails :
        (i : ℕ) → IsTail ((taken s idx candidate packets).flows i).packets (s.flows i).packets
    taken-tails i = elim (Bool-cases (i == idx)) [
      | inl e ↦
          let same : idx ≡ i = ground arith in
          rw e (candidate ∷ [], subst (λ j. (s.flows j).packets ≡ candidate ∷ packets) same front)
      | inr e ↦ rw e ([], refl)
    ]

    taken_at : ((taken s idx candidate packets).flows idx).packets ≡ packets
    taken_at = ground arith

    -- From a state that keeps what was taken.
    Keeps-Leaves :
        (t : FqCodel D) (sent : ℕ)
        → Keeps D (taken s idx candidate packets) t
        → u64 (t.total_drops + sent) ≡ u64 (s.total_drops + 1)
        → Leaves D s t sent
    Keeps-Leaves t sent k d = record {
      tails = λ i. subst (λ q. IsTail q (s.flows i).packets) (sym (k.packets i)) (taken-tails i);
      counted = omega (arith, Keeps-queued D k, taken-queued);
    }

    after_check-Good :
        (w : Which) (out : Packet) (drop : Bool) (t : FqCodel D) (now_ns : ℕ)
        → Keeps D (taken s idx candidate packets) t
        → t.total_drops ≡ s.total_drops
        → Good D w s out (after_check D drop t idx candidate now_ns)
    unfolding after_check
    after_check-Good w out true t now_ns k d =
        let (dropped, more) = drop_candidate-Keeps t idx now_ns in
        let all = Keeps-trans D k dropped in
        (
          Keeps-IsSound D all taken-IsSound,
          Keeps-Leaves (drop_candidate D t idx now_ns) 0 all (omega (arith, more, d)),
          omega (arith, Keeps-rounds_left D all, taken-rounds_left),
          kept_lists w s (drop_candidate D t idx now_ns) (all.new_flows),
        )
    after_check-Good w out false t now_ns k d =
        let (left, same) = leave_dropping-Keeps t idx in
        let all = Keeps-trans D k left in
        (
          Keeps-IsSound D all taken-IsSound,
          Keeps-Leaves (leave_dropping D t idx) 1 all (omega (arith, same, d)),
          (idx, [], front ∙ ap (λ q. candidate ∷ q) (sym (all.packets idx ∙ taken_at))),
        )

    pub serve_candidate-Good :
        (w : Which) (out : Packet) (now_ns : ℕ)
        → Good D w s out (serve_candidate D s idx candidate packets now_ns)
    unfolding serve_candidate
    serve_candidate-Good w out now_ns =
        let s1 = taken s idx candidate packets in
        after_check-Good w out (codel_should_drop D s1 idx candidate now_ns).0
          (codel_should_drop D s1 idx candidate now_ns).1 now_ns
          (codel_should_drop-Keeps s1 idx candidate now_ns)
          (codel_should_drop-drops s1 idx candidate now_ns)
