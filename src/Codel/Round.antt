-- ===== src/Codel/Round.antt =====
-- What a round of `process_flow_list` may do, and the two rounds that only move a flow.
use aether_plane.Base.{
  ℕ, suc, ◌+◌, ◌<◌, ◌≡◌, refl, sym, ap, subst, true, false, List, [], ◌∷◌, ◌++◌, arith, ◌==◌,
  length, length-append, update, add32, sleb32, inl, inr, Bool-cases,
}
use aether_plane.Base.Double.{Double}
use aether_plane.Base.Sums.{sum_over, sum_over-update, sum_over_cong}
use aether_plane.Packet.{Packet}
use aether_plane.Xsk.Frames.{occurrences, occurrences-append}
use aether_plane.Codel.{FlowQueue, FqCodel}
use aether_plane.Codel.Dequeue.{
  Which, new_list, old_list, list_of, set_list, Round, returns, goes_on, to_old,
}
use aether_plane.Codel.Sound.{
  AreFlows, AreSmall, IsDeficit, IsSound, Leaves, SentFrom, rounds_left, queued, flow_rounds,
  flow_length,
}
use aether_plane.Codel.Deficit.{add32-IsDeficit}

pub AreFlows-snoc : (is : List ℕ) (i : ℕ) → AreFlows is → i < 1024 → AreFlows (is ++ (i ∷ []))
AreFlows-snoc [] i h k = (k, tt)
AreFlows-snoc (x ∷ is) i h k = (h.0, AreFlows-snoc is i h.1 k)

module _ (D : Double) where
  -- The loop over the old flows leaves the new flows alone.
  abbrev pub NewKept : Which → FqCodel D → FqCodel D → Type 0
  NewKept new_list s t = Unit {0}
  NewKept old_list s t = t.new_flows ≡ s.new_flows

  -- What a round that starts at `s` may come to.
  abbrev pub Good : Which → FqCodel D → Packet → Round D → Type 0
  Good w s out (goes_on t) =
      IsSound D t × Leaves D s t 0 × (rounds_left D t < rounds_left D s) × NewKept w s t
  Good w s out (returns true p t) = IsSound D t × Leaves D s t 1 × SentFrom D s p t
  Good w s out (returns false p t) = (list_of D w s ≡ []) × (t ≡ s) × (p ≡ out)

  -- Packets, drops and sums where no packet moves.
  pub unmoved-Leaves :
      {s t : FqCodel D}
      → ((i : ℕ) → (t.flows i).packets ≡ (s.flows i).packets)
      → t.total_drops ≡ s.total_drops
      → Leaves D s t 0
  unfolding queued
  unmoved-Leaves {s} {t} same drops = record {
    tails = λ i. ([], sym (same i));
    counted = omega (
      arith,
      drops,
      sum_over_cong flow_length 1024 t.flows s.flows (λ i. ap (length {A = Packet}) (same i)),
    );
  }

  pub set_list-Good :
      (w : Which) (s : FqCodel D) (idx : ℕ) (rest : List ℕ) (out : Packet)
      → IsSound D s
      → list_of D w s ≡ idx ∷ rest
      → (s.flows idx).packets ≡ []
      → Good w s out (goes_on (set_list D w rest s))
  unfolding rounds_left
  set_list-Good new_list s idx rest out v e empty =
      let less : length s.new_flows ≡ suc (length rest) = ap (length {A = ℕ}) e in
      (
        record {
          deficits = v.deficits;
          small = v.small;
          new_below = (subst AreFlows e v.new_below).1;
          old_below = v.old_below;
          listed = λ i h.
              ground (arith, v.listed i h, ap (occurrences i) e, ap (length {A = Packet}) empty);
        },
        unmoved-Leaves (λ i. refl) refl,
        omega arith,
        tt,
      )
  set_list-Good old_list s idx rest out v e empty =
      let less : length s.old_flows ≡ suc (length rest) = ap (length {A = ℕ}) e in
      (
        record {
          deficits = v.deficits;
          small = v.small;
          new_below = v.new_below;
          old_below = (subst AreFlows e v.old_below).1;
          listed = λ i h.
              ground (arith, v.listed i h, ap (occurrences i) e, ap (length {A = Packet}) empty);
        },
        unmoved-Leaves (λ i. refl) refl,
        omega arith,
        refl,
      )

  -- The flow with one more quantum.
  abbrev raised : FlowQueue → FlowQueue
  raised flow = record flow { deficit = add32 flow.deficit 1514 }

  raised-rounds :
      (s : FqCodel D) (idx : ℕ)
      → IsSound D s
      → idx < 1024
      → sleb32 (s.flows idx).deficit 0 ≡ true
      → sum_over flow_rounds 1024 (update s.flows idx (raised (s.flows idx))) + 1
        ≡ sum_over flow_rounds 1024 s.flows
  raised-rounds s idx v lt debt = omega (
    arith,
    (add32-IsDeficit (s.flows idx).deficit (v.deficits idx) debt).1,
    sum_over-update flow_rounds 1024 s.flows idx (raised (s.flows idx)) lt,
  )

  raised-deficits :
      (s : FqCodel D) (idx : ℕ)
      → IsSound D s
      → sleb32 (s.flows idx).deficit 0 ≡ true
      → (i : ℕ) → IsDeficit (update s.flows idx (raised (s.flows idx)) i).deficit
  raised-deficits s idx v debt i = elim (Bool-cases (i == idx)) [
    | inl e ↦ rw e (add32-IsDeficit (s.flows idx).deficit (v.deficits idx) debt).0
    | inr e ↦ rw e (v.deficits i)
  ]

  raised-packets :
      (s : FqCodel D) (idx i : ℕ)
      → (update s.flows idx (raised (s.flows idx)) i).packets ≡ (s.flows i).packets
  raised-packets s idx i = ground arith

  pub to_old-Good :
      (w : Which) (s : FqCodel D) (idx : ℕ) (rest : List ℕ) (out : Packet)
      → IsSound D s
      → list_of D w s ≡ idx ∷ rest
      → sleb32 (s.flows idx).deficit 0 ≡ true
      → Good w s out (goes_on (to_old D w s idx rest))
  unfolding to_old rounds_left
  to_old-Good new_list s idx rest out v e debt =
      let below = subst AreFlows e v.new_below in
      let fewer = raised-rounds s idx v below.0 debt in
      (
        record {
          deficits = raised-deficits s idx v debt;
          small = λ i. subst AreSmall (sym (raised-packets s idx i)) (v.small i);
          new_below = below.1;
          old_below = AreFlows-snoc s.old_flows idx v.old_below below.0;
          listed = λ i h. ground (
            arith,
            v.listed i (subst (λ q. 0 < length q) (raised-packets s idx i) h),
            ap (occurrences i) e,
            occurrences-append i s.old_flows (idx ∷ []),
          );
        },
        unmoved-Leaves (raised-packets s idx) refl,
        omega (arith, fewer, ap (length {A = ℕ}) e, length-append s.old_flows (idx ∷ [])),
        tt,
      )
  to_old-Good old_list s idx rest out v e debt =
      let below = subst AreFlows e v.old_below in
      let fewer = raised-rounds s idx v below.0 debt in
      (
        record {
          deficits = raised-deficits s idx v debt;
          small = λ i. subst AreSmall (sym (raised-packets s idx i)) (v.small i);
          new_below = v.new_below;
          old_below = AreFlows-snoc rest idx below.1 below.0;
          listed = λ i h. ground (
            arith,
            v.listed i (subst (λ q. 0 < length q) (raised-packets s idx i) h),
            ap (occurrences i) e,
            occurrences-append i rest (idx ∷ []),
          );
        },
        unmoved-Leaves (raised-packets s idx) refl,
        omega (arith, fewer, ap (length {A = ℕ}) e, length-append rest (idx ∷ [])),
        refl,
      )
