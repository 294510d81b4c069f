-- ===== src/Codel/Arrive.antt =====
-- `enqueue` keeps the scheduler sound, and adds one packet.
use aether_plane.Base.{
  ℕ, ◌+◌, ◌^◌, ◌<◌, ◌≡◌, refl, inl, inr, List, [], ◌∷◌, ◌++◌, arith, ◌==◌, if◌then◌else◌, length,
  length-append, leb, add64, Bool-cases,
}
use aether_plane.Base.Double.{Double}
use aether_plane.Base.Sums.{sum_over-update, sum_over_zero}
use aether_plane.Packet.{Packet, size}
use aether_plane.Xsk.Frames.{occurrences, occurrences-append}
use aether_plane.Codel.{FqCodel, init, new_flow, quantum, hash_flow, enqueue}
use aether_plane.Codel.Enqueue.{hash_flow-lt}
use aether_plane.Codel.Sound.{AreSmall, AreFlows, IsDeficit, IsSound, queued, flow_length}
use aether_plane.Codel.Round.{AreFlows-snoc}

AreSmall-snoc :
    (q : List Packet) (p : Packet) → AreSmall q → size p < 2 ^ 30 → AreSmall (q ++ (p ∷ []))
AreSmall-snoc [] p h k = (k, tt)
AreSmall-snoc (x ∷ q) p h k = (h.0, AreSmall-snoc q p h.1 k)

module _ (D : Double) where
  pub init-IsSound : IsSound D (init D)
  unfolding init
  init-IsSound = record {
    deficits = λ i. inl (omega arith);
    small = λ i. tt;
    new_below = tt;
    old_below = tt;
    listed = λ i h. absurd (omega arith);
  }

  enqueue-deficits :
      (s : FqCodel D) (p : Packet) (i : ℕ)
      → IsSound D s
      → IsDeficit ((enqueue D s p).1.flows i).deficit
  unfolding enqueue
  enqueue-deficits s p i v = ground (arith, v.deficits i)

  enqueue-small :
      (s : FqCodel D) (p : Packet) (i : ℕ)
      → IsSound D s
      → size p < 2 ^ 30
      → AreSmall ((enqueue D s p).1.flows i).packets
  unfolding enqueue
  enqueue-small s p i v h = elim (Bool-cases (i == hash_flow p.meta)) [
    | inl e ↦
        rw e (AreSmall-snoc (s.flows (hash_flow p.meta)).packets p (v.small (hash_flow p.meta)) h)
    | inr e ↦ rw e (v.small i)
  ]

  enqueue-new_below :
      (s : FqCodel D) (p : Packet) → IsSound D s → AreFlows (enqueue D s p).1.new_flows
  unfolding enqueue
  enqueue-new_below s p v = elim (Bool-cases (length (s.flows (hash_flow p.meta)).packets == 0)) [
    | inl e ↦ rw e (AreFlows-snoc s.new_flows (hash_flow p.meta) v.new_below (hash_flow-lt p))
    | inr e ↦ rw e v.new_below
  ]

  enqueue-listed :
      (s : FqCodel D) (p : Packet) (i : ℕ)
      → IsSound D s
      → 0 < length ((enqueue D s p).1.flows i).packets
      → 0 < occurrences i (enqueue D s p).1.new_flows + occurrences i (enqueue D s p).1.old_flows
  unfolding enqueue
  enqueue-listed s p i v h =
      ground (arith, v.listed i, occurrences-append i s.new_flows (hash_flow p.meta ∷ []))

  pub enqueue-IsSound :
      (s : FqCodel D) (p : Packet) → IsSound D s → size p < 2 ^ 30 → IsSound D (enqueue D s p).1
  unfolding enqueue
  enqueue-IsSound s p v h = record {
    deficits = λ i. enqueue-deficits s p i v;
    small = λ i. enqueue-small s p i v h;
    new_below = enqueue-new_below s p v;
    old_below = v.old_below;
    listed = λ i. enqueue-listed s p i v;
  }

  pub enqueue-total_drops :
      (s : FqCodel D) (p : Packet) → (enqueue D s p).1.total_drops ≡ s.total_drops
  unfolding enqueue
  enqueue-total_drops s p = refl

  pub init-queued : queued D (init D) + (init D).total_drops ≡ 0
  unfolding init queued
  init-queued = omega (arith, sum_over_zero flow_length 1024 new_flow (λ i. refl))

  pub enqueue-queued : (s : FqCodel D) (p : Packet) → queued D (enqueue D s p).1 ≡ queued D s + 1
  unfolding enqueue queued
  enqueue-queued s p =
      let k = hash_flow p.meta in
      let flow = s.flows k in
      let packets = flow.packets ++ (p ∷ []) in
      omega (
        arith,
        sum_over-update flow_length 1024 s.flows k
            (record flow {
              deficit = if length flow.packets == 0 then quantum else flow.deficit;
              packets = packets;
              total_bytes = add64 flow.total_bytes (size p);
              is_sparse = leb (length packets) 4;
            })
            (hash_flow-lt p),
        length-append flow.packets (p ∷ []),
      )
