-- ===== src/Pipeline/Place.antt =====
-- Where a frame that is not dropped comes to stand: its class, its egress interface and its place in the scheduler.
use aether_plane.Base.{
  ℕ, ◌≤◌, ◌<◌, ◌≡◌, ◌≢◌, refl, ap, Bool, true, false, ◌∙◌, subst, List, [], ◌∷◌, ◌++◌, Option, none,
  some, arith, length, update, inl, inr,
}
use mathlib.Core.Bool.{false≢true}
use aether_plane.Base.Double.{Double}
use aether_plane.Packet.{Packet, TrafficClass, class_index, best_effort}
use aether_plane.Filter.{FilterVerdict, accept, drop, reject, qos_queue, evaluate, update_conntrack}
use aether_plane.Xdp.{
  XdpAction, XdpMeta, XdpHookEngine, xdp_drop, xdp_pass, xdp_aborted, xdp_tx, xdp_redirect,
  process_packet,
}
use aether_plane.Flow.{track_and_classify}
use aether_plane.Lpm.{RouteEntry, LpmTrie, lookup}
use aether_plane.Xdp
use aether_plane.Lpm
use aether_plane.Lpm.Table.{Op, best, IsAddress}
use aether_plane.Lpm.Refine.{run, table_after, AreOps, run-lookup}
use aether_plane.Qos
use aether_plane.Qos.Runs.{enqueue_cases}
use aether_plane.Pipeline.{
  DataPath, passes, transmit, schedule, set_egress, route, chosen_class, classify, forward,
  on_verdict, filter, on_action, no_meta, process,
}

-- `egress` where there is no route.
abbrev pub egress_of : Option RouteEntry → ℕ → ℕ
egress_of none egress = egress
egress_of (some e) egress = e.egress_ifindex

module _ (D : Double) where
  -- The packet `p` is the frame with its class and its egress, and it is behind the others of its class, unless
  -- the queue of the class is full.
  pub record Placed (s t : DataPath D) (frame p : Packet) (class : TrafficClass)
      (entry : Option RouteEntry) : Type 0 where
    pub bytes : p.buffer ≡ frame.buffer
    pub classed : p.meta.traffic_class ≡ class
    pub routed : p.meta.egress_ifindex ≡ egress_of entry frame.meta.egress_ifindex
    pub queued :
        let i = class_index class in
        let q = s.qos_scheduler.queues in
        length (q i) < 256 → t.qos_scheduler.queues ≡ update q i (q i ++ (p ∷ []))
    pub refused :
        256 ≤ length (s.qos_scheduler.queues (class_index class))
        → t.qos_scheduler.queues ≡ s.qos_scheduler.queues

  set_egress-parts :
      (p : Packet) (entry : Option RouteEntry)
      → let p' = set_egress D p entry in
        (p'.buffer ≡ p.buffer)
        × (p'.meta.traffic_class ≡ p.meta.traffic_class)
        × (p'.meta.egress_ifindex ≡ egress_of entry p.meta.egress_ifindex)
  set_egress-parts p none = (refl, refl, refl)
  set_egress-parts p (some e) = (refl, refl, refl)

  queue_index-class : (p : Packet) → Qos.queue_index D p ≡ class_index p.meta.traffic_class
  queue_index-class p = ground arith

  enqueue-places :
      (q : Qos.Scheduler D) (p : Packet) (i : ℕ)
      → Qos.queue_index D p ≡ i
      → let q' = (Qos.enqueue D q p).1.queues in
        (length (q.queues i) < 256 → q' ≡ update q.queues i (q.queues i ++ (p ∷ [])))
        × (256 ≤ length (q.queues i) → q' ≡ q.queues)
  enqueue-places q p i e =
      subst
        (λ j.
          (length (q.queues j) < 256
            → (Qos.enqueue D q p).1.queues ≡ update q.queues j (q.queues j ++ (p ∷ [])))
          × (256 ≤ length (q.queues j) → (Qos.enqueue D q p).1.queues ≡ q.queues))
        e
        (elim (enqueue_cases D q p) [
          | inl (full, answer, same, counted) ↦ (λ room. absurd (omega (arith, full)), λ h. same)
          | inr (room, answer, queued, counted, dropped) ↦
              (λ h. queued, λ full. absurd (omega (arith, room)))
        ])

  forward-Placed :
      (ops : List Op) (s : DataPath D) (frame : Packet) (verd : FilterVerdict)
      (class : TrafficClass)
      → AreOps ops
      → s.routing_table ≡ run Lpm.init ops
      → IsAddress frame.meta.dest_ip
      → (p : Packet) × (t : DataPath D) × (forward D s frame verd class ≡ transmit D t)
        × Placed s t frame p
            (chosen_class D verd class (track_and_classify D s.classifier frame).0)
            (best frame.meta.dest_ip (table_after [] ops))
  unfolding forward classify schedule route
  forward-Placed ops s frame verd class ok table address =
      let s1 : DataPath D = record s { netfilter = update_conntrack s.netfilter frame } in
      let classed : Packet × DataPath D = classify D s1 frame verd class in
      let entry = lookup s.routing_table frame.meta.dest_ip in
      let p = set_egress D classed.0 entry in
      let (bytes, kept_class, egress) = set_egress-parts classed.0 entry in
      let found : entry ≡ best frame.meta.dest_ip (table_after [] ops) =
        ap (λ t. lookup t frame.meta.dest_ip) table
        ∙ (run-lookup ops frame.meta.dest_ip ok address).0 in
      let places =
        enqueue-places s.qos_scheduler p _ (queue_index-class p ∙ ap class_index kept_class) in
      (
        p,
        schedule D classed.1 p,
        refl,
        record {
          bytes = bytes;
          classed = kept_class;
          routed = egress ∙ ap (λ e. egress_of e frame.meta.egress_ifindex) found;
          queued = places.0;
          refused = places.1;
        },
      )

  on_action-filter :
      (s : DataPath D) (pkt : Packet) (act : XdpAction)
      → act ≢ xdp_drop
      → on_action D s pkt act ≡ filter D s pkt
  unfolding on_action
  on_action-filter s pkt xdp_drop ne = absurd (ne refl)
  on_action-filter s pkt xdp_aborted ne = refl
  on_action-filter s pkt xdp_pass ne = refl
  on_action-filter s pkt xdp_tx ne = refl
  on_action-filter s pkt xdp_redirect ne = refl

  on_verdict-forward :
      (s : DataPath D) (pkt : Packet) (v : FilterVerdict) (class : TrafficClass)
      → v ≢ drop
      → on_verdict D s pkt (v, class) ≡ passes (forward D s pkt v class)
  unfolding on_verdict
  on_verdict-forward s pkt drop class ne = absurd (ne refl)
  on_verdict-forward s pkt accept class ne = refl
  on_verdict-forward s pkt reject class ne = refl
  on_verdict-forward s pkt qos_queue class ne = refl

  -- The class of the rule if the verdict is to queue, and the class of the classifier otherwise.
  abbrev pub IsClass : FilterVerdict → TrafficClass → TrafficClass → TrafficClass → Type 0
  IsClass verd of_rule of_flow c =
      (verd ≡ qos_queue → c ≡ of_rule) × (verd ≢ qos_queue → c ≡ of_flow)

  abbrev is_queue : FilterVerdict → Bool
  is_queue qos_queue = true
  is_queue accept = false
  is_queue drop = false
  is_queue reject = false

  chosen_class-IsClass :
      (verd : FilterVerdict) (of_rule of_flow : TrafficClass)
      → IsClass verd of_rule of_flow (chosen_class D verd of_rule of_flow)
  chosen_class-IsClass qos_queue of_rule of_flow = (λ e. refl, λ ne. absurd (ne refl))
  chosen_class-IsClass accept of_rule of_flow =
      (λ e. absurd (false≢true (ap is_queue e)), λ ne. refl)
  chosen_class-IsClass drop of_rule of_flow = (λ e. absurd (false≢true (ap is_queue e)), λ ne. refl)
  chosen_class-IsClass reject of_rule of_flow =
      (λ e. absurd (false≢true (ap is_queue e)), λ ne. refl)

  -- A frame that no XDP program drops and whose verdict is not to drop reaches the scheduler, and then `transmit`
  -- runs. It has its bytes, the class of the filter rule if the verdict is to queue and the class of the
  -- classifier otherwise, and the egress interface of the longest prefix that contains its address, if there is one; the
  -- routing table comes from a history of insertions and deletions. It stands last in the queue of its class and
  -- no other queue changed, or that queue held 256 packets or more and none changed.
  pub process-Placed :
      (ops : List Op) (s : DataPath D) (pkt frame : Packet) (act : XdpAction) (meta : XdpMeta)
      (xdp : XdpHookEngine) (verd : FilterVerdict) (class : TrafficClass)
      → AreOps ops
      → s.routing_table ≡ run Lpm.init ops
      → process_packet s.xdp pkt (no_meta D) ≡ (act, frame, meta, xdp)
      → evaluate s.netfilter frame best_effort ≡ (verd, class)
      → act ≢ xdp_drop
      → verd ≢ drop
      → IsAddress frame.meta.dest_ip
      → (p : Packet) × (t : DataPath D) × (c : TrafficClass) × (process D s pkt
          ≡ passes (transmit D t))
        × IsClass verd class (track_and_classify D s.classifier frame).0 c
        × Placed s t frame p c (best frame.meta.dest_ip (table_after [] ops))
  unfolding process
  process-Placed ops s pkt frame act meta xdp verd class ok table e1 e2 on_xdp on_filter address =
      let s1 : DataPath D = record s { xdp = xdp } in
      let (p, t, e, placed) = forward-Placed ops s1 frame verd class ok table address in
      (
        p,
        t,
        chosen_class D verd class (track_and_classify D s.classifier frame).0,
        ap (λ (r : Xdp.Outcome). on_action D (record s { xdp = r.3 }) r.1 r.0) e1
            ∙ on_action-filter s1 frame act on_xdp
            ∙ ap (on_verdict D s1 frame) e2
            ∙ on_verdict-forward s1 frame verd class on_filter
            ∙ ap (λ u. passes u) e,
        chosen_class-IsClass verd class (track_and_classify D s.classifier frame).0,
        record {
          bytes = placed.bytes;
          classed = placed.classed;
          routed = placed.routed;
          queued = placed.queued;
          refused = placed.refused;
        },
      )
