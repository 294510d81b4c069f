-- ===== src/Qos/Order.antt =====
-- Which packet `dequeue` sends: the first queue's before all others, then the first queue of the round
-- robin whose front packet is covered by its deficit, each queue in order of arrival.
use aether_plane.Base.{
  ℕ, zero, suc, ◌+◌, ◌≤◌, ◌<◌, ◌≡◌, ◌≢◌, refl, sym, ap, subst, ◌∙◌, ◌⊎◌, List, [], ◌∷◌, arith, ◌==◌,
  update, inl, inr, Bool-cases,
}
use mathlib.Core.List.{cons≢nil}
use aether_plane.Base.Double.{Double}
use aether_plane.Packet.{Packet}
use aether_plane.Qos.{Scheduler, take_front, serve, round_robin, dequeue_from, dequeue}
use aether_plane.Qos.Turn.{Holds, Blocked, Answer, Sends, Idle, OnlyAt, serve_cases}

module _ (D : Double) where
  Blocked-back :
      {s t : Scheduler D} {i : ℕ} (k : ℕ)
      → t.queues ≡ s.queues
      → OnlyAt D s t i
      → k ≢ i
      → Blocked D t k ≡ Blocked D s k
  Blocked-back {s = s} {t = t} {i = i} k q o ne =
      ap (λ d. Holds d (t.weights k) (t.queues k)) (o.deficits k ne)
      ∙ ap (λ (w : ℕ → ℕ). Holds (s.deficits k) (w k) (t.queues k)) o.weights
      ∙ ap (λ (f : ℕ → List Packet). Holds (s.deficits k) (s.weights k) (f k)) q

  -- Among the queues from `i` to below `m`, the first that is not blocked sends.
  abbrev First : Scheduler D → ℕ → ℕ → Answer D → Type 0
  First s i m r =
      (j : ℕ) × (i ≤ j)
      × (j < m)
      × Sends D s r j
      × (¬ Blocked D s j)
      × ((k : ℕ) → i ≤ k → k < j → Blocked D s k)

  abbrev NoneOf : Scheduler D → ℕ → ℕ → Answer D → Packet → Type 0
  NoneOf s i m r out = Idle D s r out × ((k : ℕ) → i ≤ k → k < m → Blocked D s k)

  -- One blocked queue before.
  First-earlier :
      {s t : Scheduler D} (i m : ℕ) (r : Answer D)
      → t.queues ≡ s.queues
      → OnlyAt D s t i
      → Blocked D s i
      → First t (i + 1) m r
      → First s i m r
  First-earlier {s} {t} i m r q o b (j, le, lt, sends, nb, before) =
      let at : (k : ℕ) → i + 1 ≤ k → Blocked D t k ≡ Blocked D s k =
        λ k h. Blocked-back {s = s} {t = t} {i = i} k q o (omega arith) in
      (
        j,
        omega arith,
        lt,
        record {
          packet = sends.packet;
          rest = sends.rest;
          front = ap (λ (f : ℕ → List Packet). f j) (sym q) ∙ sends.front;
          sent = sends.sent;
          out_packet = sends.out_packet;
          queues = sends.queues ∙ ap (λ (f : ℕ → List Packet). update f j sends.rest) q;
        },
        λ h. nb (subst (λ A. A) (sym (at j le)) h),
        λ k h l. elim (Bool-cases (k == i)) [
          | inl e ↦ let same : i ≡ k = ground arith in subst (Blocked D s) same b
          | inr ne ↦ subst (λ A. A) (at k (ground arith)) (before k (ground arith) l)
        ],
      )

  NoneOf-earlier :
      {s t : Scheduler D} (i m : ℕ) (r : Answer D) (out : Packet)
      → t.queues ≡ s.queues
      → OnlyAt D s t i
      → Blocked D s i
      → NoneOf t (i + 1) m r out
      → NoneOf s i m r out
  NoneOf-earlier {s} {t} i m r out q o b (idle, blocked) = (
    record { kept = idle.kept; out_same = idle.out_same; queues = idle.queues ∙ q },
    λ k h l. elim (Bool-cases (k == i)) [
      | inl e ↦ let same : i ≡ k = ground arith in subst (Blocked D s) same b
      | inr ne ↦
          subst (λ A. A) (Blocked-back {s = s} {t = t} {i = i} k q o (ground arith))
            (blocked k (ground arith) l)
    ],
  )

  round_robin_cases :
      (n i m : ℕ) (s : Scheduler D) (out : Packet)
      → i + n ≡ m
      → First s i m (round_robin D n i s out) ⊎ NoneOf s i m (round_robin D n i s out) out
  unfolding round_robin
  round_robin_cases zero i m s out e =
      (inr (record { kept = refl; out_same = refl; queues = refl }, λ k h l. absurd (omega arith)))
  round_robin_cases (suc n) i m s out e = (elim (serve_cases D s i (s.queues i) out refl) [
    | inl (sends, nb) ↦ rw (sends.sent) (
        inl (
          i,
          omega arith,
          omega arith,
          record {
            packet = sends.packet;
            rest = sends.rest;
            front = sends.front;
            sent = refl;
            out_packet = sends.out_packet;
            queues = sends.queues;
          },
          nb,
          λ k h l. absurd (omega arith),
        ))
    | inr (idle, only, b) ↦
        rw (idle.kept)
          (elim (round_robin_cases n (i + 1) m (serve D s i (s.queues i) out).2 out (omega arith)) [
            | inl f ↦ inl (First-earlier i m _ (idle.queues) only b f)
            | inr f ↦ inr (NoneOf-earlier i m _ out (idle.queues) only b f)
          ])
  ])

  -- A queue that `dequeue` passes over: the first queue when it is empty, another one when it is empty or
  -- its raised deficit does not cover its front packet.
  abbrev pub Waits : Scheduler D → ℕ → Type 0
  Waits s zero = s.queues 0 ≡ []
  Waits s (suc i) = Blocked D s (suc i)

  Waits-Blocked : (s : Scheduler D) (i : ℕ) → 1 ≤ i → Blocked D s i → Waits s i
  Waits-Blocked s zero h b = absurd (omega arith)
  Waits-Blocked s (suc i) h b = b

  Blocked-Waits : (s : Scheduler D) (i : ℕ) → 1 ≤ i → Waits s i → Blocked D s i
  Blocked-Waits s zero h b = absurd (omega arith)
  Blocked-Waits s (suc i) h b = b

  abbrev pub Dequeues : Scheduler D → Answer D → Packet → Type 0
  Dequeues s r out =
      ((j : ℕ) × (j < 5) × Sends D s r j × (¬ Waits s j) × ((k : ℕ) → k < j → Waits s k))
      ⊎ (Idle D s r out × ((k : ℕ) → k < 5 → Waits s k))

  Waits-below :
      (s : Scheduler D) (m : ℕ)
      → s.queues 0 ≡ []
      → ((k : ℕ) → 1 ≤ k → k < m → Blocked D s k)
      → (k : ℕ) → k < m
      → Waits s k
  Waits-below s m e h zero l = e
  Waits-below s m e h (suc k) l = h (suc k) (omega arith) l

  dequeue_from_cases :
      (s : Scheduler D) (q : List Packet) (out : Packet)
      → s.queues 0 ≡ q
      → Dequeues s (dequeue_from D s q out) out
  unfolding dequeue_from take_front
  dequeue_from_cases s (p ∷ rest) out e = inl (
    0,
    omega arith,
    record { packet = p; rest = rest; front = e; sent = refl; out_packet = refl; queues = refl },
    λ h. cons≢nil (sym e ∙ h),
    λ k l. absurd (omega arith),
  )
  dequeue_from_cases s [] out e = elim (round_robin_cases 4 1 5 s out (omega arith)) [
    | inl (j, le, lt, sends, nb, before) ↦
        inl (j, lt, sends, λ w. nb (Blocked-Waits s j le w), Waits-below s j e before)
    | inr (idle, blocked) ↦ inr (idle, Waits-below s 5 e blocked)
  ]

  -- `dequeue` sends the front packet of the first queue that can send, and removes it from that queue alone:
  -- queue 0 can send when it is not empty, a queue from 1 to 4 when its deficit, raised by its weight, covers
  -- its front packet. When no queue can send it returns false and leaves every queue and the output packet
  -- as they were.
  pub dequeue-first : (s : Scheduler D) (out : Packet) → Dequeues s (dequeue D s out) out
  unfolding dequeue
  dequeue-first s out = (dequeue_from_cases s (s.queues 0) out refl)
