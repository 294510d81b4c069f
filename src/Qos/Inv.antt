-- ===== src/Qos/Inv.antt =====
-- The invariant of the scheduler: bounded queues, counters that balance, and deficits far from the
-- bounds of `int32_t` as long as frames are at least 60 bytes long.
use aether_plane.Base.{
  ℕ, zero, suc, ◌+◌, ◌^◌, ◌≤◌, ◌<◌, ◌≡◌, refl, sym, ap, subst, ◌∙◌, List, [], ◌∷◌, ◌++◌, arith, leb,
  update, length, length-append, add64, add32, sub32, sleb32, u32, inl, inr, Bool-cases,
}
use aether_plane.Base.Double.{Double}
use aether_plane.Packet.{Packet, size}
use aether_plane.Qos.{
  Scheduler, initial_weights, init, enqueue, queue_index, take_front, serve, round_robin,
  dequeue_from, dequeue,
}
use aether_plane.Qos.Congestion.{SameQueues, update_congestion_state-SameQueues}

-- An Ethernet frame without its check sequence has at least 60 bytes.
abbrev pub IsFrame : Packet → Type 0
IsFrame p = (60 ≤ size p) × (size p < 2 ^ 30)

abbrev pub AreFrames : List Packet → Type 0
AreFrames [] = Unit {0}
AreFrames (p ∷ q) = IsFrame p × AreFrames q

AreFrames-snoc :
    (q : List Packet) (p : Packet) → AreFrames q → IsFrame p → AreFrames (q ++ (p ∷ []))
AreFrames-snoc [] p h k = (k, tt)
AreFrames-snoc (x ∷ q) p h k = (h.0, AreFrames-snoc q p h.1 k)

initial_weights-le : (i : ℕ) → 1 ≤ i → initial_weights i ≤ 60
initial_weights-le i h = ground arith

module _ (D : Double) where
  pub record IsValid (s : Scheduler D) : Type 0 where
    pub weighted : s.weights ≡ initial_weights
    pub frames : (i : ℕ) → AreFrames (s.queues i)
    pub depth : (i : ℕ) → length (s.queues i) ≤ 256
    pub occupied : (i : ℕ) → (s.stats i).current_occupancy ≡ length (s.queues i)
    -- Packets in less packets out is what the queue holds, modulo 2 ^ 64.
    pub balanced :
        (i : ℕ)
        → (s.stats i).enqueued_packets ≡ add64 ((s.stats i).dequeued_packets) (length (s.queues i))
    pub credit : (i : ℕ) → s.deficits i < 2 ^ 30

  pub init-IsValid : IsValid (init D)
  unfolding init
  init-IsValid = record {
    weighted = refl;
    frames = λ i. tt;
    depth = λ i. omega arith;
    occupied = λ i. refl;
    balanced = λ i. refl;
    credit = λ i. omega arith;
  }

  SameQueues-IsValid : {s t : Scheduler D} → SameQueues D s t → IsValid s → IsValid t
  SameQueues-IsValid {s} {t} e v = record {
    weighted = e.weights ∙ v.weighted;
    frames = λ i. subst (λ q. AreFrames (q i)) (sym e.queues) (v.frames i);
    depth = λ i. subst (λ q. length (q i) ≤ 256) (sym e.queues) (v.depth i);
    occupied = λ i. e.occupancy i ∙ v.occupied i ∙ ap (λ q. length (q i)) (sym e.queues);
    balanced = λ i.
        e.enqueued i ∙ v.balanced i ∙ ground (arith, e.dequeued i, ap (λ q. length (q i)) e.queues);
    credit = λ i. subst (λ d. d i < 2 ^ 30) (sym e.deficits) (v.credit i);
  }

  -- The state before the measurements of `enqueue`.
  abbrev appended : Scheduler D → ℕ → Packet → Scheduler D
  appended s i pkt =
      let st = s.stats i in
      let q' = s.queues i ++ (pkt ∷ []) in
      record s {
        queues = update s.queues i q';
        stats = update s.stats i (record st {
          enqueued_packets = add64 st.enqueued_packets 1;
          current_occupancy = length q';
        });
      }

  appended-IsValid :
      (s : Scheduler D) (i : ℕ) (pkt : Packet)
      → IsValid s
      → IsFrame pkt
      → length (s.queues i) < 256
      → IsValid (appended s i pkt)
  appended-IsValid s i pkt v f room = record {
    weighted = v.weighted;
    frames = λ j. ground (arith, v.frames j, AreFrames-snoc (s.queues i) pkt (v.frames i) f);
    depth = λ j. ground (arith, v.depth j, length-append (s.queues i) (pkt ∷ []));
    occupied = λ j. ground (arith, v.occupied j);
    balanced =
        λ j. ground (arith, v.balanced j, v.balanced i, length-append (s.queues i) (pkt ∷ []));
    credit = λ j. v.credit j;
  }

  dropped-IsValid :
      (s : Scheduler D) (i : ℕ) (n : ℕ)
      → IsValid s
      → IsValid (record s { stats = update s.stats i (record (s.stats i) { dropped_packets = n }) })
  dropped-IsValid s i n v = record {
    weighted = v.weighted;
    frames = v.frames;
    depth = v.depth;
    occupied = λ j. ground (arith, v.occupied j);
    balanced = λ j. ground (arith, v.balanced j);
    credit = v.credit;
  }

  -- `enqueue` of a frame keeps the invariant, whether it takes or drops the packet.
  pub enqueue-IsValid :
      (s : Scheduler D) (pkt : Packet) → IsValid s → IsFrame pkt → IsValid (enqueue D s pkt).1
  unfolding enqueue
  enqueue-IsValid s pkt v f =
      let i = queue_index D pkt in
      elim (Bool-cases (leb 256 (length (s.queues i)))) [
        | inl full ↦ rw full (dropped-IsValid s i _ v)
        | inr room ↦ rw room (
            SameQueues-IsValid (update_congestion_state-SameQueues D (appended s i pkt))
              (appended-IsValid s i pkt v f (ground arith)))
      ]

  take_front-IsValid :
      (s : Scheduler D) (i : ℕ) (p : Packet) (rest : List Packet)
      → IsValid s
      → s.queues i ≡ p ∷ rest
      → IsValid (take_front D s i rest)
  unfolding take_front
  take_front-IsValid s i p rest v e =
      let len : length (s.queues i) ≡ suc (length rest) = ap (length {A = Packet}) e in
      record {
        weighted = v.weighted;
        frames = λ j. ground (arith, v.frames j, subst AreFrames e (v.frames i));
        depth = λ j. ground (arith, v.depth j, v.depth i, len);
        occupied = λ j. ground (arith, v.occupied j);
        balanced = λ j. ground (arith, v.balanced j, v.balanced i, len);
        credit = v.credit;
      }

  deficit-IsValid :
      (s : Scheduler D) (i d : ℕ)
      → IsValid s
      → d < 2 ^ 30
      → IsValid (record s { deficits = update s.deficits i d })
  deficit-IsValid s i d v h = record {
    weighted = v.weighted;
    frames = v.frames;
    depth = v.depth;
    occupied = v.occupied;
    balanced = v.balanced;
    credit = λ j. ground (arith, v.credit j);
  }

  pub serve-IsValid :
      (s : Scheduler D) (i : ℕ) (q : List Packet) (out : Packet)
      → IsValid s
      → 1 ≤ i
      → s.queues i ≡ q
      → IsValid (serve D s i q out).2
  unfolding serve
  serve-IsValid s i [] out v h e = deficit-IsValid s i 0 v (omega arith)
  serve-IsValid s i (p ∷ rest) out v h e =
      let d = add32 (s.deficits i) (s.weights i) in
      let bytes = u32 (size p) in
      let w : s.weights i ≤ 60 = rw v.weighted (initial_weights-le i h) in
      let f : IsFrame p = (subst AreFrames e (v.frames i)).0 in
      let c = v.credit i in
      elim (Bool-cases (sleb32 bytes d)) [
        | inl covers ↦ rw covers (
            take_front-IsValid (record s { deficits = update s.deficits i (sub32 d bytes) }) i p
              rest (deficit-IsValid s i (sub32 d bytes) v (ground arith)) e)
        | inr short ↦ rw short (deficit-IsValid s i d v (ground arith))
      ]

  round_robin-IsValid :
      (n i : ℕ) (s : Scheduler D) (out : Packet)
      → IsValid s
      → 1 ≤ i
      → IsValid (round_robin D n i s out).2
  unfolding round_robin
  round_robin-IsValid zero i s out v h = v
  round_robin-IsValid (suc n) i s out v h =
      let served = serve-IsValid s i (s.queues i) out v h refl in
      elim (Bool-cases (serve D s i (s.queues i) out).0) [
        | inl sent ↦ rw sent served
        | inr kept ↦ rw kept (
            round_robin-IsValid n (i + 1) (serve D s i (s.queues i) out).2 out served (omega arith))
      ]

  dequeue_from-IsValid :
      (s : Scheduler D) (q : List Packet) (out : Packet)
      → IsValid s
      → s.queues 0 ≡ q
      → IsValid (dequeue_from D s q out).2
  unfolding dequeue_from
  dequeue_from-IsValid s [] out v e = round_robin-IsValid 4 1 s out v (omega arith)
  dequeue_from-IsValid s (p ∷ rest) out v e = take_front-IsValid s 0 p rest v e

  -- `dequeue` keeps it too.
  pub dequeue-IsValid : (s : Scheduler D) (out : Packet) → IsValid s → IsValid (dequeue D s out).2
  unfolding dequeue
  dequeue-IsValid s out v = dequeue_from-IsValid s (s.queues 0) out v refl
