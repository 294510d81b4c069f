-- ===== src/Qos/Work.antt =====
-- How much work the packets in the queues need: each `dequeue` of a scheduler that holds a packet does some of it.
use aether_plane.Base.{
  ℕ, ◌+◌, ◌-◌, ◌≤◌, ◌<◌, ◌≡◌, ap, subst, false, List, [], ◌∷◌, arith, ◌==◌, update, length, add32,
  sub32, sleb32, u32, inl, inr, Bool-cases,
}
use aether_plane.Base.Double.{Double}
use aether_plane.Base.Sums.{sum_over, sum_over-update, sum_over_cong}
use aether_plane.Packet.{Packet, size}
use aether_plane.Qos.{Scheduler, initial_weights, take_front, serve}
use aether_plane.Qos.Inv.{IsValid, IsFrame, AreFrames}

-- The bytes of a queue.
unfoldable pub bytes_of : List Packet → ℕ
bytes_of [] = 0
bytes_of (p ∷ q) = size p + bytes_of q

-- The packets, and the bytes that the deficit does not cover yet.
unfoldable pub queue_work : List Packet × ℕ → ℕ
queue_work (q, deficit) = length q + (bytes_of q - deficit)

-- A queue without its front packet, which the deficit paid.
queue_work-sent :
    (p : Packet) (rest : List Packet) (d d' : ℕ)
    → d ≤ d' + size p
    → queue_work (rest, d') + 1 ≤ queue_work (p ∷ rest, d)
unfolding queue_work bytes_of
queue_work-sent p rest d d' h = omega arith

queue_work-short :
    (p : Packet) (rest : List Packet) (d d' : ℕ)
    → d < d'
    → d' < size p
    → queue_work (p ∷ rest, d') + 1 ≤ queue_work (p ∷ rest, d)
unfolding queue_work bytes_of
queue_work-short p rest d d' h k = omega arith

queue_work_zero : (d : ℕ) → queue_work ([], d) ≡ 0
unfolding queue_work bytes_of
queue_work_zero d = omega arith

module _ (D : Double) where
  abbrev queue_at : Scheduler D → ℕ → List Packet × ℕ
  queue_at s i = (s.queues i, s.deficits i)

  unfoldable pub work : Scheduler D → ℕ
  work s = sum_over queue_work 5 (queue_at s)

  -- What a change of queue `i` and its deficit does to the work.
  work-at :
      (s t : Scheduler D) (i : ℕ)
      → i < 5
      → ((j : ℕ) → (j == i) ≡ false → queue_work (queue_at t j) ≡ queue_work (queue_at s j))
      → work t + queue_work (queue_at s i) ≡ work s + queue_work (queue_at t i)
  unfolding work
  work-at s t i lt same = omega (
    arith,
    sum_over-update queue_work 5 (queue_at s) i (queue_at t i) lt,
    sum_over_cong queue_work 5 (queue_at t) (update (queue_at s) i (queue_at t i)) (λ j.
        elim (Bool-cases (j == i)) [
          | inl e ↦
              let here : j ≡ i = ground arith in rw e (ap (λ n. queue_work (queue_at t n)) here)
          | inr e ↦ rw e (same j e)
        ]),
  )

  -- The front packet of queue `i` leaves, and its deficit becomes `d`.
  abbrev pub sent_front : Scheduler D → ℕ → ℕ → List Packet → Scheduler D
  sent_front s i d rest = take_front D (record s { deficits = update s.deficits i d }) i rest

  sent_front-work :
      (s : Scheduler D) (i d : ℕ) (p : Packet) (rest : List Packet)
      → i < 5
      → s.queues i ≡ p ∷ rest
      → s.deficits i ≤ d + size p
      → work (sent_front s i d rest) + 1 ≤ work s
  unfolding take_front
  sent_front-work s i d p rest lt e paid =
      let t = sent_front s i d rest in
      let here : queue_work (queue_at t i) ≡ queue_work (rest, d) = ground arith in
      omega (
        arith,
        work-at s t i lt (λ j ne. ground arith),
        here,
        queue_work-sent p rest (s.deficits i) d paid,
        ap (λ q. queue_work (q, s.deficits i)) e,
      )

  deficit-work :
      (s : Scheduler D) (i d : ℕ) (q : List Packet)
      → i < 5
      → s.queues i ≡ q
      → work (record s { deficits = update s.deficits i d }) + queue_work (q, s.deficits i)
        ≡ work s + queue_work (q, d)
  deficit-work s i d q lt e =
      let t : Scheduler D = record s { deficits = update s.deficits i d } in
      let here : queue_work (queue_at t i) ≡ queue_work (s.queues i, d) = ground arith in
      omega (
        arith,
        work-at s t i lt (λ j ne. ground arith),
        here,
        ap (λ r. queue_work (r, s.deficits i)) e,
        ap (λ r. queue_work (r, d)) e,
      )

  weight-positive : (i : ℕ) → 1 ≤ i → (1 ≤ initial_weights i) × (initial_weights i ≤ 60)
  weight-positive i h = ground arith

  -- A turn at a queue that holds a packet does some work, and one at an empty queue changes no work.
  abbrev pub Works : Scheduler D → List Packet → Scheduler D → Type 0
  Works s [] t = work t ≡ work s
  Works s (p ∷ rest) t = work t + 1 ≤ work s

  pub serve-Works :
      (s : Scheduler D) (i : ℕ) (q : List Packet) (out : Packet)
      → IsValid D s
      → 1 ≤ i
      → i < 5
      → s.queues i ≡ q
      → Works s q (serve D s i q out).2
  unfolding serve
  serve-Works s i [] out v pos lt e =
      omega (arith, deficit-work s i 0 [] lt e, queue_work_zero (s.deficits i), queue_work_zero 0)
  serve-Works s i (p ∷ rest) out v pos lt e =
      let d = add32 (s.deficits i) (s.weights i) in
      let bytes = u32 (size p) in
      let w : (1 ≤ s.weights i) × (s.weights i ≤ 60) = rw v.weighted (weight-positive i pos) in
      let f : IsFrame p = (subst AreFrames e (v.frames i)).0 in
      let c = v.credit i in
      elim (Bool-cases (sleb32 bytes d)) [
        | inl covers ↦
            rw covers (sent_front-work s i (sub32 d bytes) p rest lt e (ground (arith, w, f, c)))
        | inr short ↦ rw short (
            omega (
              arith,
              deficit-work s i d (p ∷ rest) lt e,
              queue_work-short p rest (s.deficits i) d (ground (arith, w, f, c))
                  (ground (arith, w, f, c)),
            ))
      ]

  pub take_front-Works :
      (s : Scheduler D) (i : ℕ) (p : Packet) (rest : List Packet)
      → i < 5
      → s.queues i ≡ p ∷ rest
      → work (take_front D s i rest) + 1 ≤ work s
  unfolding take_front
  take_front-Works s i p rest lt e =
      let t = take_front D s i rest in
      let here : queue_work (queue_at t i) ≡ queue_work (rest, s.deficits i) = ground arith in
      omega (
        arith,
        work-at s t i lt (λ j ne. ground arith),
        here,
        queue_work-sent p rest (s.deficits i) (s.deficits i) (omega arith),
        ap (λ q. queue_work (q, s.deficits i)) e,
      )
