-- ===== src/Codel/Order.antt =====
-- The order in which `dequeue` returns the packets of a flow.
use aether_plane.Base.{
  ℕ, ◌≡◌, refl, sym, ap, subst, ◌∙◌, inl, inr, true, false, List, [], ◌∷◌, ◌++◌, append_assoc,
  append-nil, some, arith, ◌==◌, if◌then◌else◌, Bool-cases,
}
use mathlib.Core.Option
use aether_plane.Base.Double.{Double}
use aether_plane.Base.Parts.{IsPart, no_more, IsPart-refl, IsPart-trans, IsPart-append, gone-IsPart}
use aether_plane.Packet.{Packet}
use aether_plane.Codel.{FqCodel, init, hash_flow, enqueue}
use aether_plane.Codel.Enqueue.{of_hash}
use aether_plane.Codel.Dequeue.{Answer}
use aether_plane.Codel.Sound.{IsTail}
use aether_plane.Codel.Ends.{Dequeued}
use aether_plane.Codel.Runs.{
  Call, arrives, departs, HasSmall, earlier_small, Run, run, and_call, sent_by, Conserves,
  enqueue-Conserves, dequeue-Conserves, new_run, init-Conserves,
}

-- The packets of flow `i` among others.
unfoldable pub in_flow : ℕ → List Packet → List Packet
in_flow i [] = []
in_flow i (p ∷ q) = let rest = in_flow i q in if hash_flow p.meta == i then p ∷ rest else rest

in_flow-append : (i : ℕ) (q r : List Packet) → in_flow i (q ++ r) ≡ in_flow i q ++ in_flow i r
unfolding in_flow
in_flow-append i [] r = refl
in_flow-append i (p ∷ q) r = elim (Bool-cases (hash_flow p.meta == i)) [
  | inl e ↦ rw e (ap (λ t. p ∷ t) (in_flow-append i q r))
  | inr e ↦ rw e (in_flow-append i q r)
]

in_flow_own : (i : ℕ) (p : Packet) → hash_flow p.meta ≡ i → in_flow i (p ∷ []) ≡ p ∷ []
unfolding in_flow
in_flow_own i p e = ground (arith, e)

in_flow_other : (i : ℕ) (p : Packet) → (hash_flow p.meta == i) ≡ false → in_flow i (p ∷ []) ≡ []
unfolding in_flow
in_flow_other i p e = rw e refl

-- The packets that arrived, the last one first.
pub arrivals : List Call → List Packet
arrivals [] = []
arrivals (arrives p ∷ earlier) = p ∷ arrivals earlier
arrivals (departs t ∷ earlier) = arrivals earlier

abbrev pub AreOf : ℕ → List Packet → Type 0
AreOf i [] = Unit {0}
AreOf i (p ∷ q) = (hash_flow p.meta ≡ i) × AreOf i q

AreOf-rest : (i : ℕ) (gone q : List Packet) → AreOf i (gone ++ q) → AreOf i q
AreOf-rest i [] q h = h
AreOf-rest i (x ∷ gone) q h = AreOf-rest i gone q h.1

AreOf-snoc :
    (i : ℕ) (q : List Packet) (p : Packet)
    → AreOf i q
    → hash_flow p.meta ≡ i
    → AreOf i (q ++ (p ∷ []))
AreOf-snoc i [] p h k = (k, tt)
AreOf-snoc i (x ∷ q) p h k = (h.0, AreOf-snoc i q p h.1 k)

module _ (D : Double) where
  -- Flow `i` holds its own packets, and what it sent and still holds arrived in this order.
  pub record Ordered (calls : List Call) (r : Run D) (i : ℕ) : Type 0 where
    pub own : AreOf i (r.state.flows i).packets
    pub part : IsPart (in_flow i r.sent ++ (r.state.flows i).packets) (of_hash i (arrivals calls))

  -- Packets left the flow at its front, and none of them was sent.
  tail-Ordered :
      (calls : List Call) (r : Run D) (i : ℕ) (t : FqCodel D) (sent : List Packet)
      → Ordered calls r i
      → IsTail (t.flows i).packets (r.state.flows i).packets
      → in_flow i sent ≡ in_flow i r.sent
      → Ordered calls (record { state = t; sent = sent }) i
  tail-Ordered calls r i t sent o (gone, e) same =
      let ft = (t.flows i).packets in
      record {
        own = AreOf-rest i gone ft (subst (AreOf i) e o.own);
        part =
            IsPart-trans
              (subst (λ q. IsPart (q ++ ft) (in_flow i r.sent ++ (r.state.flows i).packets))
                (sym same)
                (subst (λ q. IsPart (in_flow i r.sent ++ ft) (in_flow i r.sent ++ q)) (sym e)
                  (IsPart-append (IsPart-refl (in_flow i r.sent)) (gone-IsPart gone ft))))
              o.part;
      }

  -- The flow that sent.
  sent-Ordered :
      (calls : List Call) (r : Run D) (i : ℕ) (p : Packet) (t : FqCodel D) (gone : List Packet)
      → Ordered calls r i
      → (r.state.flows i).packets ≡ gone ++ (p ∷ (t.flows i).packets)
      → Ordered calls (record { state = t; sent = r.sent ++ (p ∷ []) }) i
  sent-Ordered calls r i p t gone o e =
      let ft = (t.flows i).packets in
      let was = AreOf-rest i gone (p ∷ ft) (subst (AreOf i) e o.own) in
      let grown : in_flow i (r.sent ++ (p ∷ [])) ++ ft ≡ in_flow i r.sent ++ (p ∷ ft) =
        ap (λ q. q ++ ft)
          (in_flow-append i r.sent (p ∷ [])
            ∙ ap (λ q. in_flow i r.sent ++ q) (in_flow_own i p (was.0)))
        ∙ append_assoc (in_flow i r.sent) (p ∷ []) ft in
      record {
        own = was.1;
        part =
            IsPart-trans
              (subst (λ q. IsPart q (in_flow i r.sent ++ (r.state.flows i).packets)) (sym grown)
                (subst (λ q. IsPart (in_flow i r.sent ++ (p ∷ ft)) (in_flow i r.sent ++ q)) (sym e)
                  (IsPart-append (IsPart-refl (in_flow i r.sent)) (gone-IsPart gone (p ∷ ft)))))
              o.part;
      }

  dequeue-Ordered :
      (calls : List Call) (r : Run D) (out : Packet) (a : Answer D)
      → ((i : ℕ) → Ordered calls r i)
      → Dequeued D r.state out a
      → (i : ℕ) → Ordered calls (sent_by D r a) i
  dequeue-Ordered calls r out (false, p, t) o (v, l, same, idle) i =
      tail-Ordered calls r i t r.sent (o i) (l.tails i) refl
  dequeue-Ordered calls r out (true, p, t) o (v, l, (j, gone, e)) i =
      let hashed = (AreOf-rest j gone (p ∷ (t.flows j).packets) (subst (AreOf j) e (o j).own)).0 in
      elim (Bool-cases (hash_flow p.meta == i)) [
        | inl here ↦
            let same : j ≡ i = ground (arith, hashed) in
            subst (Ordered calls (record { state = t; sent = r.sent ++ (p ∷ []) })) same
              (sent-Ordered calls r j p t gone (o j) e)
        | inr other ↦ tail-Ordered calls r i t (r.sent ++ (p ∷ [])) (o i) (l.tails i) (
            in_flow-append i r.sent (p ∷ [])
            ∙ ap (λ q. in_flow i r.sent ++ q) (in_flow_other i p other)
            ∙ append-nil (in_flow i r.sent))
      ]

  enqueue-own :
      (s : FqCodel D) (p : Packet)
      → ((enqueue D s p).1.flows (hash_flow p.meta)).packets
        ≡ (s.flows (hash_flow p.meta)).packets ++ (p ∷ [])
  unfolding enqueue
  enqueue-own s p = ground arith

  enqueue-other :
      (s : FqCodel D) (p : Packet) (i : ℕ)
      → (hash_flow p.meta == i) ≡ false
      → ((enqueue D s p).1.flows i).packets ≡ (s.flows i).packets
  unfolding enqueue
  enqueue-other s p i e = ground arith

  own-Ordered :
      (calls : List Call) (r : Run D) (p : Packet)
      → Ordered calls r (hash_flow p.meta)
      → Ordered
          (arrives p ∷ calls)
          (record r { state = (enqueue D r.state p).1 })
          (hash_flow p.meta)
  unfolding arrivals
  own-Ordered calls r p o =
      let k = hash_flow p.meta in
      let q = (r.state.flows k).packets in
      let e = enqueue-own r.state p in
      let here : (k == k) ≡ true = ground arith in
      record {
        own = subst (AreOf k) (sym e) (AreOf-snoc k q p o.own refl);
        part = rw here (
            subst (λ u. IsPart (in_flow k r.sent ++ u) (of_hash k (arrivals calls) ++ (p ∷ [])))
              (sym e)
              (subst (λ u. IsPart u (of_hash k (arrivals calls) ++ (p ∷ [])))
                (append_assoc (in_flow k r.sent) q (p ∷ []))
                (IsPart-append o.part (IsPart-refl (p ∷ [])))));
      }

  enqueue-Ordered :
      (calls : List Call) (r : Run D) (p : Packet) (i : ℕ)
      → Ordered calls r i
      → Ordered (arrives p ∷ calls) (record r { state = (enqueue D r.state p).1 }) i
  unfolding arrivals
  enqueue-Ordered calls r p i o = elim (Bool-cases (hash_flow p.meta == i)) [
    | inl here ↦
        let same : hash_flow p.meta ≡ i = ground arith in
        subst (Ordered (arrives p ∷ calls) (record r { state = (enqueue D r.state p).1 })) same
          (own-Ordered calls r p (subst (Ordered calls r) (sym same) o))
    | inr other ↦
        let e = enqueue-other r.state p i other in
        record {
          own = subst (AreOf i) (sym e) o.own;
          part = rw other (
              subst (λ u. IsPart (in_flow i r.sent ++ u) (of_hash i (arrivals calls))) (sym e)
                o.part);
        }
  ]

  -- A `dequeue` brings no packet.
  departed :
      (now_ns : ℕ) (calls : List Call) (r : Run D) (i : ℕ)
      → Ordered calls r i
      → Ordered (departs now_ns ∷ calls) r i
  unfolding arrivals
  departed now_ns calls r i o = record { own = o.own; part = o.part }

  abbrev OrderedRun : Packet → List Call → Run D → Type 0
  OrderedRun out calls r =
      (run D out calls ≡ some r) × Conserves D calls r × ((i : ℕ) → Ordered calls r i)

  call-Ordered :
      (out : Packet) (c : Call) (earlier : List Call) (r : Run D)
      → HasSmall (c ∷ earlier)
      → OrderedRun out earlier r
      → (r' : Run D) × OrderedRun out (c ∷ earlier) r'
  unfolding run
  call-Ordered out (arrives p) earlier r small (e, h, o) = (
    record r { state = (enqueue D r.state p).1 },
    (
      ap (and_call D out (arrives p)) e,
      enqueue-Conserves D p earlier r small.0 h,
      λ i. enqueue-Ordered earlier r p i (o i),
    ),
  )
  call-Ordered out (departs now_ns) earlier r small (e, h, o) =
      let (a, (e', done, h')) = dequeue-Conserves D out now_ns earlier r h in
      (
        sent_by D r a,
        (
          ap (and_call D out (departs now_ns)) e ∙ ap (Option.map (sent_by D r)) e',
          h',
          λ i. departed now_ns earlier (sent_by D r a) i (dequeue-Ordered earlier r out a o done i),
        ),
      )

  init-Ordered : (i : ℕ) → Ordered [] (new_run D) i
  unfolding init in_flow arrivals
  init-Ordered i = record { own = tt; part = no_more }

  run-OrderedRun :
      (out : Packet) (calls : List Call) → HasSmall calls → (r : Run D) × OrderedRun out calls r
  unfolding run
  run-OrderedRun out [] small = (new_run D, (refl, init-Conserves D, init-Ordered))
  run-OrderedRun out (c ∷ earlier) small =
      let (r, o) = run-OrderedRun out earlier (earlier_small c earlier small) in
      call-Ordered out c earlier r small o

  -- After any calls of `enqueue` and `dequeue` on a new scheduler, each packet below 2 ^ 30 bytes, every flow is
  -- served in order of arrival: the packets of a flow that `dequeue` returned, followed by those that the flow
  -- holds, are the packets that arrived for the flow, in that order, without some (the dropped ones). A
  -- flow holds only packets that hash to it.
  pub run-Ordered :
      (out : Packet) (calls : List Call)
      → HasSmall calls
      → (r : Run D) × (run D out calls ≡ some r) × ((i : ℕ) → Ordered calls r i)
  run-Ordered out calls small = let (r, (e, h, o)) = run-OrderedRun out calls small in (r, e, o)
