-- ===== src/Codel/Enqueue.antt =====
-- The queues after any packets enqueued on a new scheduler, the newest first.
use native.Mathlib.Nat.{mod-lt}
use aether_plane.Base.{
  ℕ, ◌+◌, ◌<◌, ◌≡◌, refl, ap, false, List, [], ◌∷◌, ◌++◌, arith, leb, ◌==◌, if◌then◌else◌, length,
  length-append, u64, inl, inr, Bool-cases,
}
use aether_plane.Base.Double.{Double}
use aether_plane.Packet.{Packet, size}
use aether_plane.Xsk.Frames.{occurrences, occurrences-append}
use aether_plane.Codel.{FqCodel, init, hash_flow, enqueue}

-- The packets of flow `i`, in order of arrival.
abbrev pub of_hash : ℕ → List Packet → List Packet
of_hash i [] = []
of_hash i (p ∷ earlier) =
    let rest = of_hash i earlier in if hash_flow p.meta == i then rest ++ (p ∷ []) else rest

-- Their bytes.
abbrev pub hash_bytes : ℕ → List Packet → ℕ
hash_bytes i [] = 0
hash_bytes i (p ∷ earlier) =
    let rest = hash_bytes i earlier in if hash_flow p.meta == i then rest + size p else rest

module _ (D : Double) where
  unfoldable pub after : List Packet → FqCodel D
  after [] = init D
  after (p ∷ earlier) = (enqueue D (after earlier) p).1

  pub record Holds (s : FqCodel D) (h : List Packet) (i : ℕ) : Type 0 where
    pub packets : (s.flows i).packets ≡ of_hash i h
    pub bytes : (s.flows i).total_bytes ≡ u64 (hash_bytes i h)
    pub deficit : (s.flows i).deficit ≡ 1514
    -- A flow waits in the list of new flows once, if it has packets.
    pub listed : occurrences i s.new_flows ≡ (if length (of_hash i h) == 0 then 0 else 1)
    pub sparse : (s.flows i).is_sparse ≡ leb (length (of_hash i h)) 4

  enqueue_self-Holds :
      (s : FqCodel D) (p : Packet) (h : List Packet) (k : ℕ)
      → hash_flow p.meta ≡ k
      → Holds s h k
      → Holds (enqueue D s p).1 (p ∷ h) k
  unfolding enqueue
  enqueue_self-Holds s p h k e a =
      let grown = length-append (of_hash k h) (p ∷ []) in
      let waiting : length (s.flows k).packets ≡ length (of_hash k h) =
        ap (length {A = Packet}) a.packets in
      rw e (record {
        packets = ground (arith, ap (λ q. q ++ (p ∷ [])) a.packets);
        bytes = ground (arith, a.bytes);
        deficit = ground (arith, a.deficit);
        listed =
            ground (arith, a.listed, waiting, grown, occurrences-append k s.new_flows (k ∷ []));
        sparse = ground (arith, ap (λ q. leb (length (q ++ (p ∷ []))) 4) a.packets);
      })

  enqueue_other-Holds :
      (s : FqCodel D) (p : Packet) (h : List Packet) (i k : ℕ)
      → hash_flow p.meta ≡ k
      → (k == i) ≡ false
      → Holds s h i
      → Holds (enqueue D s p).1 (p ∷ h) i
  unfolding enqueue
  enqueue_other-Holds s p h i k e ne a = rw e (record {
    packets = ground (arith, a.packets);
    bytes = ground (arith, a.bytes);
    deficit = ground (arith, a.deficit);
    listed = ground (arith, a.listed, occurrences-append i s.new_flows (k ∷ []));
    sparse = ground (arith, a.sparse);
  })

  -- After any packets enqueued on a new scheduler, each flow holds the packets that hash to it in order of
  -- arrival, its bytes are theirs modulo 2 ^ 64, its deficit is one quantum, it counts as sparse while it has
  -- at most 4 packets, and it stands once in the list of new flows if it has a packet and not at all otherwise.
  pub after-Holds : (h : List Packet) (i : ℕ) → Holds (after h) h i
  unfolding after init
  after-Holds [] i = record {
    packets = refl;
    bytes = refl;
    deficit = refl;
    listed = refl;
    sparse = refl;
  }
  after-Holds (p ∷ earlier) i = elim (Bool-cases (hash_flow p.meta == i)) [
    | inl e ↦
        let same : hash_flow p.meta ≡ i = ground arith in
        enqueue_self-Holds (after earlier) p earlier i same (after-Holds earlier i)
    | inr e ↦
        enqueue_other-Holds (after earlier) p earlier i (hash_flow p.meta) refl e
          (after-Holds earlier i)
  ]

-- A flow is one of the 1024.
pub hash_flow-lt : (p : Packet) → hash_flow p.meta < 1024
unfolding hash_flow
hash_flow-lt p = mod-lt _ (omega arith)
