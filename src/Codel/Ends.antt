-- ===== src/Codel/Ends.antt =====
-- The loop of `process_flow_list` comes to an end, and what `dequeue` returns.
use aether_plane.Base.{
  ℕ, zero, suc, ◌<◌, ◌≤◌, ◌≡◌, refl, sym, ap, subst, ◌∙◌, inl, inr, Bool, true, false, List, [],
  ◌∷◌, Option, some, arith, if◌then◌else◌, length, sleb32, Bool-cases,
}
use aether_plane.Base.Double.{Double}
use aether_plane.Packet.{Packet}
use aether_plane.Xsk.Frames.{occurrences}
use aether_plane.Codel.{FqCodel}
use aether_plane.Codel.Dequeue.{
  Which, new_list, old_list, list_of, Round, returns, goes_on, to_old, serve_candidate, round_at,
  round, Answer, end_or, process_flow_list, or_old, then_old, dequeue,
}
use aether_plane.Codel.Sound.{
  AreFlows, IsSound, Leaves, Leaves-trans, SentFrom, SentFrom-earlier, rounds_left,
}
use aether_plane.Codel.Round.{Good, NewKept, unmoved-Leaves, set_list-Good, to_old-Good}
use aether_plane.Codel.Candidate.{serve_candidate-Good}

module _ (D : Double) where
  listed_below :
      (w : Which) (s : FqCodel D) (idx : ℕ) (rest : List ℕ)
      → IsSound D s
      → list_of D w s ≡ idx ∷ rest
      → idx < 1024
  listed_below new_list s idx rest v e = (subst AreFlows e v.new_below).0
  listed_below old_list s idx rest v e = (subst AreFlows e v.old_below).0

  round_at-Good :
      (w : Which) (s : FqCodel D) (idx : ℕ) (rest : List ℕ) (out : Packet) (now_ns : ℕ)
      → IsSound D s
      → list_of D w s ≡ idx ∷ rest
      → (packets : List Packet) → (s.flows idx).packets ≡ packets
      → Good D w s out (round_at D w s idx rest packets now_ns)
  unfolding round_at
  round_at-Good w s idx rest out now_ns v e [] front = set_list-Good D w s idx rest out v e front
  round_at-Good w s idx rest out now_ns v e (candidate ∷ packets) front =
      let branch : Bool → Round D = λ b.
        if b
        then goes_on (to_old D w s idx rest)
        else serve_candidate D s idx candidate packets now_ns in
      elim (Bool-cases (sleb32 (s.flows idx).deficit 0)) [
        | inl debt ↦
            subst (λ b. Good D w s out (branch b)) (sym debt)
              (to_old-Good D w s idx rest out v e debt)
        | inr paid ↦
            subst (λ b. Good D w s out (branch b)) (sym paid)
              (serve_candidate-Good D s idx candidate packets v (listed_below w s idx rest v e)
                front paid w out now_ns)
      ]

  round-Good :
      (w : Which) (s : FqCodel D) (out : Packet) (now_ns : ℕ)
      → IsSound D s
      → (flow_list : List ℕ) → list_of D w s ≡ flow_list
      → Good D w s out (round D w s flow_list out now_ns)
  unfolding round
  round-Good w s out now_ns v [] e = (e, refl, refl)
  round-Good w s out now_ns v (idx ∷ rest) e =
      round_at-Good w s idx rest out now_ns v e (s.flows idx).packets refl

  -- What the loop over a list may come to.
  abbrev pub Ends : Which → FqCodel D → Packet → Answer D → Type 0
  Ends w s out (true, p, t) = IsSound D t × Leaves D s t 1 × SentFrom D s p t
  Ends w s out (false, p, t) =
      IsSound D t
      × Leaves D s t 0
      × (p ≡ out)
      × (list_of D w t ≡ [])
      × NewKept D w s t
      × (rounds_left D t ≤ rounds_left D s)

  NewKept-trans :
      (w : Which) (s t u : FqCodel D) → NewKept D w s t → NewKept D w t u → NewKept D w s u
  NewKept-trans new_list s t u a b = tt
  NewKept-trans old_list s t u a b = b ∙ a

  NewKept-refl : (w : Which) (s : FqCodel D) → NewKept D w s s
  NewKept-refl new_list s = tt
  NewKept-refl old_list s = refl

  Ends-earlier :
      (w : Which) (s t : FqCodel D) (out : Packet)
      → Leaves D s t 0
      → rounds_left D t < rounds_left D s
      → NewKept D w s t
      → (a : Answer D) → Ends w t out a
      → Ends w s out a
  Ends-earlier w s t out l less k (true, p, u) (v, m, from) =
      (v, Leaves-trans D l m, SentFrom-earlier D p u l from)
  Ends-earlier w s t out l less k (false, p, u) (v, m, same, empty, k', less') =
      (v, Leaves-trans D l m, same, empty, NewKept-trans w s t u k k', omega arith)

  abbrev pub Returns : Which → FqCodel D → Packet → Option (Answer D) → Type 0
  Returns w s out r = (a : Answer D) × (r ≡ some a) × Ends w s out a

  after_round :
      (w : Which) (s : FqCodel D) (out : Packet) (again : FqCodel D → Option (Answer D))
      → IsSound D s
      → ((t : FqCodel D)
          → IsSound D t
          → rounds_left D t < rounds_left D s
          → Returns w t out (again t))
      → (r : Round D) → Good D w s out r
      → Returns w s out (end_or D again r)
  after_round w s out again v next (returns true p t) good = ((true, p, t), refl, good)
  after_round w s out again v next (returns false p t) (empty, same, kept) = (
    (false, out, s),
    ap (λ q. some (false, q, t)) kept ∙ ap (λ u. some (false, out, u)) same,
    (v, unmoved-Leaves D (λ i. refl) refl, refl, empty, NewKept-refl w s, omega arith),
  )
  after_round w s out again v next (goes_on t) (v', l, less, k) =
      let (a, e, ends) = next t v' less in (a, e, Ends-earlier w s t out l less k a ends)

  -- Enough fuel gives an answer.
  pub process_flow_list-Returns :
      (fuel : ℕ) (w : Which) (s : FqCodel D) (out : Packet) (now_ns : ℕ)
      → IsSound D s
      → rounds_left D s < fuel
      → Returns w s out (process_flow_list D fuel w s out now_ns)
  unfolding process_flow_list
  process_flow_list-Returns zero w s out now_ns v enough = absurd (omega arith)
  process_flow_list-Returns (suc fuel) w s out now_ns v enough =
      after_round w s out (λ t. process_flow_list D fuel w t out now_ns) v
        (λ t v' less. process_flow_list-Returns fuel w t out now_ns v' (omega arith))
        (round D w s (list_of D w s) out now_ns) (round-Good w s out now_ns v (list_of D w s) refl)

  -- No flow has a packet.
  abbrev pub IsIdle : FqCodel D → Type 0
  IsIdle s = (i : ℕ) → (s.flows i).packets ≡ []

  no_packets : (q : List Packet) → ¬ (0 < length q) → q ≡ []
  no_packets [] h = refl
  no_packets (p ∷ q) h = absurd (h (omega arith))

  IsSound-IsIdle : (s : FqCodel D) → IsSound D s → s.new_flows ≡ [] → s.old_flows ≡ [] → IsIdle s
  IsSound-IsIdle s v e f i =
      no_packets (s.flows i).packets
        (λ h. omega (arith, v.listed i h, ap (occurrences i) e, ap (occurrences i) f))

  -- A packet left the front of its flow, or there was none to send.
  abbrev pub Dequeued : FqCodel D → Packet → Answer D → Type 0
  Dequeued s out (true, p, t) = IsSound D t × Leaves D s t 1 × SentFrom D s p t
  Dequeued s out (false, p, t) = IsSound D t × Leaves D s t 0 × (p ≡ out) × IsIdle t

  old_Dequeued :
      (s t : FqCodel D) (out : Packet)
      → Leaves D s t 0
      → t.new_flows ≡ []
      → (a : Answer D) → Ends old_list t out a
      → Dequeued s out a
  old_Dequeued s t out l e (true, p, u) (v, m, from) =
      (v, Leaves-trans D l m, SentFrom-earlier D p u l from)
  old_Dequeued s t out l e (false, p, u) (v, m, same, empty, k, less) =
      (v, Leaves-trans D l m, same, IsSound-IsIdle u v (k ∙ e) empty)

  then_old-Dequeued :
      (fuel : ℕ) (s : FqCodel D) (out : Packet) (now_ns : ℕ)
      → rounds_left D s < fuel
      → (a : Answer D) → Ends new_list s out a
      → (b : Answer D) × (or_old D fuel now_ns a ≡ some b) × Dequeued s out b
  then_old-Dequeued fuel s out now_ns enough (true, p, t) ends = ((true, p, t), refl, ends)
  then_old-Dequeued fuel s out now_ns enough (false, p, t) (v, l, same, empty, k, less) =
      let (b, e, ends) = process_flow_list-Returns fuel old_list t out now_ns v (omega arith) in
      (
        b,
        ap (λ q. process_flow_list D fuel old_list t q now_ns) same ∙ e,
        old_Dequeued s t out l empty b ends,
      )

  -- From a sound state and with more fuel than `rounds_left` of it, `dequeue` returns, and the state is sound again.
  -- Either it gives a packet that was at the front of its flow when it was taken, or it gives none, leaves the
  -- caller's packet as it was, and then no flow has a packet left. Packets leave the flows only at their
  -- fronts, and those that left are the packet given and the drops counted, modulo 2 ^ 64.
  pub dequeue-returns :
      (fuel : ℕ) (s : FqCodel D) (out : Packet) (now_ns : ℕ)
      → IsSound D s
      → rounds_left D s < fuel
      → (a : Answer D) × (dequeue D fuel s out now_ns ≡ some a) × Dequeued s out a
  unfolding dequeue
  dequeue-returns fuel s out now_ns v enough =
      let (a, e, ends) = process_flow_list-Returns fuel new_list s out now_ns v enough in
      let (b, f, done) = then_old-Dequeued fuel s out now_ns enough a ends in
      (b, ap (then_old D fuel now_ns) e ∙ f, done)
