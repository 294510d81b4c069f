-- ===== src/Qos/Stock.antt =====
-- The packets that the scheduler holds and those that it refused, over all queues.
use aether_plane.Base.{
  ℕ, zero, suc, ◌+◌, ◌<◌, ◌≡◌, refl, ap, ◌∙◌, true, false, List, [], ◌∷◌, ◌++◌, arith, leb,
  if◌then◌else◌, update, length, length-append, add32, sub32, sleb32, add64, u32, u64, inl, inr,
  Bool-cases,
}
use aether_plane.Base.Double.{Double}
use aether_plane.Base.Sums.{sum_over, sum_over-update, sum_over_cong}
use aether_plane.Packet.{Packet, size}
use aether_plane.Qos.{
  Scheduler, QueueStats, enqueue, queue_index, take_front, serve, round_robin, dequeue_from,
  dequeue,
}
use aether_plane.Qos.Congestion.{SameQueues, update_congestion_state-SameQueues}
use aether_plane.Qos.Turn.{Answer}

module _ (D : Double) where
  abbrev pub dropped : QueueStats D → ℕ
  dropped st = st.dropped_packets

  unfoldable pub held : Scheduler D → ℕ
  held s = sum_over (length {A = Packet}) 5 s.queues

  unfoldable pub refused : Scheduler D → ℕ
  refused s = sum_over dropped 5 s.stats

  -- A write of statistics that leaves the drops.
  refused-stats :
      (stats : ℕ → QueueStats D) (i : ℕ) (st : QueueStats D)
      → dropped st ≡ dropped (stats i)
      → sum_over dropped 5 (update stats i st) ≡ sum_over dropped 5 stats
  refused-stats stats i st e = sum_over_cong dropped 5 (update stats i st) stats (λ j. ground arith)

  queue_index-lt : (pkt : Packet) → queue_index D pkt < 5
  queue_index-lt pkt = ground arith

  enqueue-room :
      (s : Scheduler D) (i : ℕ) (pkt : Packet) (t : Scheduler D)
      → i < 5
      → SameQueues D
          (record s {
            queues = update s.queues i (s.queues i ++ (pkt ∷ []));
            stats = update s.stats i (record (s.stats i) {
              enqueued_packets = add64 ((s.stats i).enqueued_packets) 1;
              current_occupancy = length (s.queues i ++ (pkt ∷ []));
            });
          })
          t
      → (held t ≡ held s + 1) × (refused t ≡ refused s)
  unfolding held refused
  enqueue-room s i pkt t lt e =
      let q' = s.queues i ++ (pkt ∷ []) in
      let st : QueueStats D = record (s.stats i) {
        enqueued_packets = add64 ((s.stats i).enqueued_packets) 1;
        current_occupancy = length q';
      } in
      (
        omega (
          arith,
          ap (sum_over (length {A = Packet}) 5) (e.queues),
          sum_over-update (length {A = Packet}) 5 s.queues i q' lt,
          length-append (s.queues i) (pkt ∷ []),
        ),
        sum_over_cong dropped 5 t.stats (update s.stats i st) (e.dropped)
            ∙ refused-stats s.stats i st refl,
      )

  refuse-stock :
      (s : Scheduler D) (i : ℕ)
      → i < 5
      → let t = record s {
        stats =
            update s.stats i
              (record (s.stats i) { dropped_packets = add64 ((s.stats i).dropped_packets) 1 });
      } in
        u64 (held t + refused t) ≡ u64 (held s + refused s + 1)
  unfolding held refused
  refuse-stock s i lt = omega (
    arith,
    sum_over-update dropped 5 s.stats i
        (record (s.stats i) { dropped_packets = add64 ((s.stats i).dropped_packets) 1 }) lt,
  )

  -- A packet is held or refused.
  pub enqueue-stock :
      (s : Scheduler D) (pkt : Packet)
      → let t = (enqueue D s pkt).1 in u64 (held t + refused t) ≡ u64 (held s + refused s + 1)
  unfolding enqueue
  enqueue-stock s pkt =
      let i = queue_index D pkt in
      let lt = queue_index-lt pkt in
      elim (Bool-cases (leb 256 (length (s.queues i)))) [
        | inl full ↦ rw full (refuse-stock s i lt)
        | inr room ↦
            let (h, r) = enqueue-room s i pkt _ lt (update_congestion_state-SameQueues D _) in
            rw room (omega (arith, h, r))
      ]

  pub record Takes (s : Scheduler D) (r : Answer D) : Type 0 where
    pub held_then : held r.2 + (if r.0 then 1 else 0) ≡ held s
    pub refused_same : refused r.2 ≡ refused s

  take_front-Takes :
      (s : Scheduler D) (i : ℕ) (p : Packet) (rest : List Packet)
      → i < 5
      → s.queues i ≡ p ∷ rest
      → Takes s (true, p, take_front D s i rest)
  unfolding take_front held refused
  take_front-Takes s i p rest lt e = record {
    held_then = omega (
      arith,
      ap (length {A = Packet}) e,
      sum_over-update (length {A = Packet}) 5 s.queues i rest lt,
    );
    refused_same = refused-stats s.stats i _ refl;
  }

  deficit-Takes :
      (s : Scheduler D) (d : ℕ → ℕ) (out : Packet) → Takes s (false, out, record s { deficits = d })
  unfolding held refused
  deficit-Takes s d out = record { held_then = omega arith; refused_same = refl }

  deficit-sent :
      (s : Scheduler D) (d : ℕ → ℕ) (r : Answer D) → Takes (record s { deficits = d }) r → Takes s r
  unfolding held refused
  deficit-sent s d r t = record { held_then = t.held_then; refused_same = t.refused_same }

  serve-Takes :
      (s : Scheduler D) (i : ℕ) (q : List Packet) (out : Packet)
      → i < 5
      → s.queues i ≡ q
      → Takes s (serve D s i q out)
  unfolding serve
  serve-Takes s i [] out lt e = deficit-Takes s (update s.deficits i 0) out
  serve-Takes s i (p ∷ rest) out lt e =
      let d = add32 (s.deficits i) (s.weights i) in
      let bytes = u32 (size p) in
      let paid = update s.deficits i (sub32 d bytes) in
      elim (Bool-cases (sleb32 bytes d)) [
        | inl covers ↦
            rw covers (
              deficit-sent s paid _ (take_front-Takes (record s { deficits = paid }) i p rest lt e))
        | inr short ↦ rw short (deficit-Takes s (update s.deficits i d) out)
      ]

  Takes-later :
      {s t : Scheduler D} (out : Packet) (r : Answer D)
      → Takes s (false, out, t)
      → Takes t r
      → Takes s r
  Takes-later {s} {t} out r a b = record {
    held_then = omega (arith, a.held_then, b.held_then);
    refused_same = b.refused_same ∙ a.refused_same;
  }

  round_robin-Takes :
      (n i : ℕ) (s : Scheduler D) (out : Packet) → i + n ≡ 5 → Takes s (round_robin D n i s out)
  unfolding round_robin held refused
  round_robin-Takes zero i s out e = record { held_then = omega arith; refused_same = refl }
  round_robin-Takes (suc n) i s out e =
      let (sent, p, s') = serve D s i (s.queues i) out in
      let served : Takes s (sent, p, s') = serve-Takes s i (s.queues i) out (omega arith) refl in
      elim (Bool-cases sent) [
        | inl k ↦ rw k (rw k at served)
        | inr k ↦
            rw k
              (Takes-later p _ (rw k at served) (round_robin-Takes n (i + 1) s' out (omega arith)))
      ]

  dequeue_from-Takes :
      (s : Scheduler D) (q : List Packet) (out : Packet)
      → s.queues 0 ≡ q
      → Takes s (dequeue_from D s q out)
  unfolding dequeue_from
  dequeue_from-Takes s [] out e = round_robin-Takes 4 1 s out refl
  dequeue_from-Takes s (p ∷ rest) out e = take_front-Takes s 0 p rest (omega arith) e

  pub dequeue-Takes : (s : Scheduler D) (out : Packet) → Takes s (dequeue D s out)
  unfolding dequeue
  dequeue-Takes s out = dequeue_from-Takes s (s.queues 0) out refl
