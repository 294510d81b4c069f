-- ===== src/Qos/Drain.antt =====
-- Without new packets, every packet in the scheduler is sent after finitely many calls of `dequeue`.
use aether_plane.Base.{
  ℕ, zero, suc, ◌+◌, ◌≤◌, ◌<◌, ◌≡◌, ◌⊎◌, refl, sym, ap, subst, ◌∙◌, Bool, true, false, List, [],
  ◌∷◌, ◌++◌, arith, ◌==◌, if◌then◌else◌, length, length-append, inl, inr, Bool-cases,
}
use aether_plane.Base.Double.{Double}
use aether_plane.Base.Sums.{sum_over_zero_below, sum_over_entry}
use aether_plane.Packet.{Packet}
use aether_plane.Qos.{Scheduler, serve, round_robin, dequeue_from, dequeue}
use aether_plane.Qos.Inv.{IsValid, serve-IsValid, dequeue-IsValid}
use aether_plane.Qos.Turn.{Answer}
use aether_plane.Qos.Stock.{held, dequeue-Takes}
use aether_plane.Qos.Work.{work, serve-Works, take_front-Works}

length-zero : (q : List Packet) → length q ≡ 0 → q ≡ []
length-zero [] h = refl
length-zero (p ∷ q) h = absurd (omega arith)

module _ (D : Double) where
  abbrev AreEmpty : Scheduler D → ℕ → ℕ → Type 0
  AreEmpty s i m = (j : ℕ) → i ≤ j → j < m → s.queues j ≡ []

  -- Some work was done, or there was nothing to send from queue `i` on.
  abbrev Serves : Scheduler D → ℕ → Answer D → Type 0
  Serves s i r = (work D r.2 + 1 ≤ work D s) ⊎ (AreEmpty s i 5 × (work D r.2 ≤ work D s))

  -- A turn at an empty queue.
  serve-empty :
      (s : Scheduler D) (i : ℕ) (out : Packet)
      → ((serve D s i [] out).0 ≡ false) × ((serve D s i [] out).2.queues ≡ s.queues)
  unfolding serve
  serve-empty s i out = (refl, refl)

  -- After a turn at an empty queue.
  empty-Serves :
      (s t : Scheduler D) (i : ℕ) (r : Answer D)
      → s.queues i ≡ []
      → t.queues ≡ s.queues
      → work D t ≡ work D s
      → Serves t (i + 1) r
      → Serves s i r
  empty-Serves s t i r e same k (inl less) = inl (omega (arith, less, k))
  empty-Serves s t i r e same k (inr (none_left, le)) = inr (
    λ j h l. elim (Bool-cases (j == i)) [
      | inl here ↦ let at : i ≡ j = ground arith in subst (λ m. s.queues m ≡ []) at e
      | inr later ↦ ap (λ q. q j) (sym same) ∙ none_left j (ground arith) l
    ],
    omega (arith, le, k),
  )

  -- After a turn at a queue that holds a packet.
  worked-Serves :
      (s t : Scheduler D) (i : ℕ) (r : Answer D)
      → work D t + 1 ≤ work D s
      → Serves t (i + 1) r
      → Serves s i r
  worked-Serves s t i r k (inl less) = inl (omega (arith, less, k))
  worked-Serves s t i r k (inr (none_left, le)) = inl (omega (arith, le, k))

  turn-Serves :
      (s : Scheduler D) (i : ℕ) (q : List Packet) (out : Packet) (next : Scheduler D → Answer D)
      → IsValid D s
      → 1 ≤ i
      → i < 5
      → s.queues i ≡ q
      → ((t : Scheduler D) → IsValid D t → Serves t (i + 1) (next t))
      → let (sent, p, t) = serve D s i q out in Serves s i (if sent then (true, p, t) else next t)
  turn-Serves s i [] out next v pos lt e later =
      let t = (serve D s i [] out).2 in
      rw (serve-empty s i out).0 (
        empty-Serves s t i (next t) e (serve-empty s i out).1 (serve-Works D s i [] out v pos lt e)
          (later t (serve-IsValid D s i [] out v pos e)))
  turn-Serves s i (x ∷ rest) out next v pos lt e later =
      let q = x ∷ rest in
      let k = serve-Works D s i q out v pos lt e in
      elim (Bool-cases (serve D s i q out).0) [
        | inl sent ↦ rw sent (inl k)
        | inr waits ↦ rw waits (
            worked-Serves s (serve D s i q out).2 i (next (serve D s i q out).2) k
              (later (serve D s i q out).2 (serve-IsValid D s i q out v pos e)))
      ]

  round_robin-Serves :
      (n i : ℕ) (s : Scheduler D) (out : Packet)
      → i + n ≡ 5
      → 1 ≤ i
      → IsValid D s
      → Serves s i (round_robin D n i s out)
  unfolding round_robin
  round_robin-Serves zero i s out e pos v = inr (λ j h k. absurd (omega arith), omega arith)
  round_robin-Serves (suc n) i s out e pos v =
      turn-Serves s i (s.queues i) out (λ t. round_robin D n (i + 1) t out) v pos (omega arith) refl
        (λ t w. round_robin-Serves n (i + 1) t out (omega arith) (omega arith) w)

  dequeue_from-works :
      (s : Scheduler D) (q : List Packet) (out : Packet)
      → IsValid D s
      → s.queues 0 ≡ q
      → (work D (dequeue_from D s q out).2 + 1 ≤ work D s) ⊎ AreEmpty s 0 5
  unfolding dequeue_from
  dequeue_from-works s (p ∷ rest) out v e = inl (take_front-Works D s 0 p rest (omega arith) e)
  dequeue_from-works s [] out v e = elim (round_robin-Serves 4 1 s out refl (omega arith) v) [
    | inl less ↦ inl less
    | inr (none_left, le) ↦ inr (λ j h l. elim (Bool-cases (j == 0)) [
      | inl here ↦ let at : 0 ≡ j = ground arith in subst (λ m. s.queues m ≡ []) at e
      | inr later ↦ none_left j (ground arith) l
    ])
  ]

  -- A call of `dequeue` does some work, or all queues were empty.
  dequeue-works :
      (s : Scheduler D) (out : Packet)
      → IsValid D s
      → (work D (dequeue D s out).2 + 1 ≤ work D s) ⊎ AreEmpty s 0 5
  unfolding dequeue
  dequeue-works s out v = dequeue_from-works s (s.queues 0) out v refl

  abbrev added : List Packet → Bool → Packet → List Packet
  added sent true p = sent ++ (p ∷ [])
  added sent false p = sent

  -- `n` calls of `dequeue`, and the packets that they returned.
  unfoldable pub drain : ℕ → Packet → Scheduler D → List Packet → List Packet × Scheduler D
  drain zero out s sent = (sent, s)
  drain (suc n) out s sent =
      let (found, p, t) = dequeue D s out in drain n out t (added sent found p)

  AreEmpty-held : (s : Scheduler D) → AreEmpty s 0 5 → held D s ≡ 0
  unfolding held
  AreEmpty-held s h =
      sum_over_zero_below (length {A = Packet}) 5 s.queues
        (λ i lt. ap (length {A = Packet}) (h i (omega arith) lt))

  held-AreEmpty : (s : Scheduler D) → held D s ≡ 0 → AreEmpty s 0 5
  unfolding held
  held-AreEmpty s h j le lt =
      length-zero (s.queues j) (omega (arith, sum_over_entry (length {A = Packet}) 5 s.queues j lt))

  length-added :
      (sent : List Packet) (found : Bool) (p : Packet)
      → length (added sent found p) ≡ length sent + (if found then 1 else 0)
  length-added sent true p = length-append sent (p ∷ [])
  length-added sent false p = omega arith

  abbrev Drained : Scheduler D → List Packet → List Packet × Scheduler D → Type 0
  Drained s sent (all, t) = (held D t ≡ 0) × (length all ≡ length sent + held D s)

  -- One call before the others.
  Drained-earlier :
      (s : Scheduler D) (out : Packet) (sent : List Packet) (r : List Packet × Scheduler D)
      → let (found, p, t) = dequeue D s out in Drained t (added sent found p) r → Drained s sent r
  Drained-earlier s out sent r d =
      let takes = dequeue-Takes D s out in
      (
        d.0,
        omega (
          arith,
          d.1,
          takes.held_then,
          length-added sent (dequeue D s out).0 (dequeue D s out).1,
        ),
      )

  drain-idle :
      (n : ℕ) (out : Packet) (s : Scheduler D) (sent : List Packet)
      → held D s ≡ 0
      → Drained s sent (drain n out s sent)
  unfolding drain
  drain-idle zero out s sent h = (h, omega (arith, h))
  drain-idle (suc n) out s sent h =
      let (found, p, t) = dequeue D s out in
      let takes = dequeue-Takes D s out in
      Drained-earlier s out sent (drain n out t (added sent found p))
        (drain-idle n out t (added sent found p) (omega (arith, takes.held_then, h)))

  drain-Drained :
      (n : ℕ) (out : Packet) (s : Scheduler D) (sent : List Packet)
      → IsValid D s
      → work D s ≤ n
      → Drained s sent (drain n out s sent)
  unfolding drain
  drain-Drained zero out s sent v enough = elim (dequeue-works s out v) [
    | inl less ↦ absurd (omega (arith, less))
    | inr none_left ↦ drain-idle 0 out s sent (AreEmpty-held s none_left)
  ]
  drain-Drained (suc n) out s sent v enough =
      let (found, p, t) = dequeue D s out in
      elim (dequeue-works s out v) [
        | inl less ↦ Drained-earlier s out sent (drain n out t (added sent found p)) (
            drain-Drained n out t (added sent found p) (dequeue-IsValid D s out v)
              (omega (arith, less)))
        | inr none_left ↦ drain-idle (suc n) out s sent (AreEmpty-held s none_left)
      ]

  -- In a valid state, `work` calls of `dequeue` without an `enqueue` between them empty every queue: they return as
  -- many packets as the queues held, even though a call may return none while packets wait for their deficits.
  pub drain-empties :
      (n : ℕ) (out : Packet) (s : Scheduler D)
      → IsValid D s
      → work D s ≤ n
      → ((j : ℕ) → j < 5 → (drain n out s []).1.queues j ≡ [])
        × (length (drain n out s []).0 ≡ held D s)
  drain-empties n out s v enough =
      let d = drain-Drained n out s [] v enough in
      (λ j lt. held-AreEmpty (drain n out s []).1 d.0 j (omega arith) lt, omega (arith, d.1))
