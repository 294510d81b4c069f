-- ===== src/Qos/Runs.antt =====
-- The scheduler over whole runs: what `enqueue` answers and keeps, and the invariant from the constructor on.
use aether_plane.Base.{
  ◌≤◌, ◌<◌, ◌≡◌, refl, ◌∙◌, ◌⊎◌, Bool, true, false, List, [], ◌∷◌, ◌++◌, arith, leb, update, length,
  add64, inl, inr, Bool-cases,
}
use aether_plane.Base.Double.{Double}
use aether_plane.Packet.{Packet}
use aether_plane.Qos.{Scheduler, init, enqueue, dequeue, set_wireless_link_rate_mbps, queue_index}
use aether_plane.Qos.Congestion.{update_congestion_state-SameQueues}
use aether_plane.Qos.Inv.{IsValid, init-IsValid, enqueue-IsValid, dequeue-IsValid, IsFrame}

module _ (D : Double) where
  open D use {F}

  -- A call of the scheduler.
  pub data Call : Type 0 where
    enqueue_call : Packet → Call
    dequeue_call : Packet → Call
    set_rate_call : F → Call

  unfoldable pub step : Scheduler D → Call → Scheduler D
  step s (enqueue_call p) = (enqueue D s p).1
  step s (dequeue_call out) = (dequeue D s out).2
  step s (set_rate_call x) = set_wireless_link_rate_mbps D s x

  unfoldable pub run : Scheduler D → List Call → Scheduler D
  run s [] = s
  run s (c ∷ cs) = run (step s c) cs

  -- Every packet that is enqueued is a frame.
  abbrev pub OfFrames : List Call → Type 0
  OfFrames [] = Unit {0}
  OfFrames (enqueue_call p ∷ cs) = IsFrame p × OfFrames cs
  OfFrames (dequeue_call out ∷ cs) = OfFrames cs
  OfFrames (set_rate_call x ∷ cs) = OfFrames cs

  set_rate-IsValid :
      (s : Scheduler D) (x : F) → IsValid D s → IsValid D (set_wireless_link_rate_mbps D s x)
  unfolding set_wireless_link_rate_mbps
  set_rate-IsValid s x v = record {
    weighted = v.weighted;
    frames = v.frames;
    depth = v.depth;
    occupied = v.occupied;
    balanced = v.balanced;
    credit = v.credit;
  }

  keeps-IsValid :
      (cs : List Call) (s : Scheduler D) → OfFrames cs → IsValid D s → IsValid D (run s cs)
  unfolding run step
  keeps-IsValid [] s h v = v
  keeps-IsValid (enqueue_call p ∷ cs) s h v =
      keeps-IsValid cs (enqueue D s p).1 h.1 (enqueue-IsValid D s p v h.0)
  keeps-IsValid (dequeue_call out ∷ cs) s h v =
      keeps-IsValid cs (dequeue D s out).2 h (dequeue-IsValid D s out v)
  keeps-IsValid (set_rate_call x ∷ cs) s h v =
      keeps-IsValid cs (set_wireless_link_rate_mbps D s x) h (set_rate-IsValid s x v)

  -- After any sequence of calls on a new scheduler, where each enqueued packet has at least 60 and fewer than
  -- 2 ^ 30 bytes: every queue holds at most 256 packets, `current_occupancy` is the length of its queue, the
  -- enqueued packets are the dequeued ones and those still in the queue (modulo 2 ^ 64), and every deficit
  -- is below 2 ^ 30, so that the additions to it never overflow `int32_t`.
  pub run-IsValid : (cs : List Call) → OfFrames cs → IsValid D (run (init D) cs)
  run-IsValid cs h = keeps-IsValid cs (init D) h (init-IsValid D)

  abbrev pub Enqueues : Scheduler D → Packet → Bool × Scheduler D → Type 0
  Enqueues s pkt (accepted, t) =
      let i = queue_index D pkt in
      ((256 ≤ length (s.queues i))
        × (accepted ≡ false)
        × (t.queues ≡ s.queues)
        × ((t.stats i).dropped_packets ≡ add64 ((s.stats i).dropped_packets) 1))
      ⊎ ((length (s.queues i) < 256)
          × (accepted ≡ true)
          × (t.queues ≡ update s.queues i (s.queues i ++ (pkt ∷ [])))
          × ((t.stats i).enqueued_packets ≡ add64 ((s.stats i).enqueued_packets) 1)
          × ((t.stats i).dropped_packets ≡ (s.stats i).dropped_packets))

  -- `enqueue` refuses a packet exactly when its class's queue holds 256 packets or more; then it counts one drop
  -- and changes no queue. Otherwise it appends the packet to that queue, changes no other queue, counts it
  -- as enqueued and drops nothing.
  pub enqueue_cases : (s : Scheduler D) (pkt : Packet) → Enqueues s pkt (enqueue D s pkt)
  unfolding enqueue
  enqueue_cases s pkt =
      let i = queue_index D pkt in
      let st = s.stats i in
      let q' = s.queues i ++ (pkt ∷ []) in
      let appended : Scheduler D = record s {
        queues = update s.queues i q';
        stats = update s.stats i (record st {
          enqueued_packets = add64 st.enqueued_packets 1;
          current_occupancy = length q';
        });
      } in
      let e = update_congestion_state-SameQueues D appended in
      elim (Bool-cases (leb 256 (length (s.queues i)))) [
        | inl full ↦ rw full (inl (ground arith, refl, refl, ground arith))
        | inr room ↦ rw room (
            inr (
              ground arith,
              refl,
              e.queues,
              e.enqueued i ∙ ground arith,
              e.dropped i ∙ ground arith,
            ))
      ]
