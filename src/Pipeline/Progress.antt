-- ===== src/Pipeline/Progress.antt =====
-- The programs and the rule of `main` let each frame pass, so the loop reaches its last round.
use aether_plane.Base.{
  ℕ, ◌+◌, ◌≤◌, ◌<◌, ◌≡◌, refl, ap, ◌∙◌, Bool, true, false, List, [], ◌∷◌, Option, some, arith,
  length, leb, add64, inl, inr, Bool-cases,
}
use aether_plane.Base.Double.{Double}
use aether_plane.Base.Result.{ok}
use aether_plane.Packet.{Packet, TrafficClass, class_index, best_effort}
use aether_plane.Metrics.{record_rx, record_tx, snapshot}
use aether_plane.Xdp.{
  XdpMeta, XdpHookEngine, XdpProgram, xdp_pass, process_packet, run_programs, on_action,
}
use aether_plane.Filter.{
  AclRule, FilterVerdict, accept, evaluate, evaluate_rules, skips, update_conntrack,
}
use aether_plane.Flow.{track_and_classify}
use aether_plane.Netdev.{no_packet}
use aether_plane.Qos
use aether_plane.Pipeline
use aether_plane.Pipeline.{
  DataPath, Passage, continues, passes, transmit_found, transmit, schedule, classify, forward,
  route, chosen_class, filter, on_verdict, no_meta, process, Tick, end_round, after_passage,
  one_round, unless_left, main_loop, setup, data_path,
}
use aether_plane.Pipeline.Config.{mitigator_text, xdp_ddos_mitigator, rule_ssh}
use aether_plane.Pipeline.Frame.{frame_packet}
use aether_plane.Pipeline.Ledger.{record_class_packet-others}
use aether_plane.Pipeline.Runs.{one_round_lem, setup_lem, data_path-IsReady, routes}

-- The program passes the frame on as it is.
mitigator-passes :
    (n now_ns : ℕ) (meta : XdpMeta)
    → xdp_ddos_mitigator (frame_packet n now_ns) meta ≡ (xdp_pass, frame_packet n now_ns, meta)
unfolding xdp_ddos_mitigator
mitigator-passes n now_ns meta = ground arith

-- The rule does not apply to the frame.
rule_ssh-skips : (n now_ns : ℕ) → skips rule_ssh (frame_packet n now_ns).meta ≡ true
unfolding skips
rule_ssh-skips n now_ns = ground arith

run_programs-passes :
    (programs : List (List ℕ × XdpProgram)) (n now_ns : ℕ) (meta : XdpMeta) (e : XdpHookEngine)
    → programs ≡ (mitigator_text, xdp_ddos_mitigator) ∷ []
    → run_programs programs (frame_packet n now_ns) meta e
      ≡ (xdp_pass, frame_packet n now_ns, meta, e)
unfolding run_programs on_action
run_programs-passes programs n now_ns meta e same =
    ap (λ ps. run_programs ps (frame_packet n now_ns) meta e) same
    ∙ rw (mitigator-passes n now_ns meta) refl

evaluate_rules-accepts :
    (rules : List AclRule) (n now_ns : ℕ) (class : TrafficClass)
    → rules ≡ rule_ssh ∷ []
    → evaluate_rules rules (frame_packet n now_ns).meta class ≡ (accept, class)
unfolding evaluate_rules
evaluate_rules-accepts rules n now_ns class same =
    ap (λ rs. evaluate_rules rs (frame_packet n now_ns).meta class) same
    ∙ rw (rule_ssh-skips n now_ns) refl

module _ (D : Double) where
  -- The programs and the rules of `main`.
  pub record IsMain (s : DataPath D) : Type 0 where
    pub programs : s.xdp.attached_programs ≡ (mitigator_text, xdp_ddos_mitigator) ∷ []
    pub rules : s.netfilter.rules ≡ rule_ssh ∷ []

  -- Nothing is dropped before the scheduler, and the loop counter stays.
  pub record Onwards (s t : DataPath D) : Type 0 where
    pub programs : t.xdp.attached_programs ≡ s.xdp.attached_programs
    pub rules : t.netfilter.rules ≡ s.netfilter.rules
    pub loop_count : t.loop_count ≡ s.loop_count
    pub drops : t.metrics.drop_packets ≡ s.metrics.drop_packets

  transmit_found-Onwards :
      (s : DataPath D) (r : Bool × Packet × Qos.Scheduler D) → Onwards s (transmit_found D s r)
  unfolding record_tx
  transmit_found-Onwards s (true, pkt, q) = record {
    programs = refl;
    rules = refl;
    loop_count = refl;
    drops = refl;
  }
  transmit_found-Onwards s (false, pkt, q) = record {
    programs = refl;
    rules = refl;
    loop_count = refl;
    drops = refl;
  }

  forward-Onwards :
      (s : DataPath D) (pkt : Packet) (verd : FilterVerdict) (class : TrafficClass)
      → Onwards s (forward D s pkt verd class)
  unfolding forward transmit schedule classify record_rx update_conntrack
  forward-Onwards s pkt verd class =
      let s1 : DataPath D = record s { netfilter = update_conntrack s.netfilter pkt } in
      let (pkt', s2) = classify D s1 pkt verd class in
      let s3 = schedule D s2 (route D s2 pkt') in
      let on = transmit_found-Onwards s3 (Qos.dequeue D s3.qos_scheduler no_packet) in
      let i = class_index (chosen_class D verd class (track_and_classify D s.classifier pkt).0) in
      record {
        programs = on.programs;
        rules = on.rules;
        loop_count = on.loop_count;
        drops = on.drops ∙ (record_class_packet-others s.metrics i).2;
      }

  -- The frame of this round goes through all stages.
  process-passes :
      (s : DataPath D) (now_ns : ℕ)
      → IsMain s
      → (t : DataPath D) × (process D s (frame_packet s.loop_count now_ns) ≡ passes t) × Onwards s t
  unfolding process Pipeline.on_action on_verdict process_packet evaluate
  process-passes s now_ns v =
      let pkt = frame_packet s.loop_count now_ns in
      let e : XdpHookEngine = record (s.xdp) { total_processed = add64 s.xdp.total_processed 1 } in
      let s1 : DataPath D = record s { xdp = e } in
      let on = forward-Onwards s1 pkt accept best_effort in
      (
        forward D s1 pkt accept best_effort,
        rw
            (run_programs-passes s.xdp.attached_programs s.loop_count now_ns (no_meta D) e
              (v.programs))
            (rw (evaluate_rules-accepts s.netfilter.rules s.loop_count now_ns best_effort (v.rules))
              refl),
        record {
          programs = on.programs;
          rules = on.rules;
          loop_count = on.loop_count;
          drops = on.drops;
        },
      )

  end_round-Onwards :
      (tick : Tick D) (s : DataPath D)
      → let (left, t) = end_round D tick s in
        (left ≡ leb 200000 (add64 s.loop_count 1))
        × (t.loop_count ≡ add64 s.loop_count 1)
        × (t.metrics.drop_packets ≡ s.metrics.drop_packets)
        × (t.xdp ≡ s.xdp)
        × (t.netfilter ≡ s.netfilter)
  unfolding end_round snapshot
  end_round-Onwards tick s = (refl, refl, ground arith, refl, refl)

  -- A round of the loop.
  abbrev Steps : Tick D → DataPath D → Type 0
  Steps tick s =
      (t : DataPath D) × (one_round D tick s ≡ some (leb 200000 (s.loop_count + 1), t))
      × (t.loop_count ≡ s.loop_count + 1)
      × (t.metrics.drop_packets ≡ s.metrics.drop_packets)
      × IsMain t

  one_round-Steps :
      (tick : Tick D) (s : DataPath D) → IsMain s → s.loop_count < 200000 → Steps tick s
  one_round-Steps tick s v lt =
      let (t, e, on) = process-passes s (tick.now_ns) v in
      let (left, count, drops, xdp, netfilter) = end_round-Onwards tick t in
      let next : add64 t.loop_count 1 ≡ s.loop_count + 1 = omega (arith, on.loop_count) in
      (
        (end_round D tick t).1,
        one_round_lem D tick s
            ∙ ap (λ r. some (after_passage D tick r)) e
            ∙ ap (λ b. some (b, (end_round D tick t).1)) (left ∙ ap (leb 200000) next),
        count ∙ next,
        drops ∙ on.drops,
        record {
          programs = ap (λ x. x.attached_programs) xdp ∙ on.programs ∙ v.programs;
          rules = ap (λ f. f.rules) netfilter ∙ on.rules ∙ v.rules;
        },
      )

  abbrev pub Leaves : List (Tick D) → DataPath D → Type 0
  Leaves ticks s =
      (t : DataPath D) × (main_loop D ticks s ≡ some (true, t))
      × (t.loop_count ≡ 200000)
      × (t.metrics.drop_packets ≡ s.metrics.drop_packets)

  main_loop-Leaves :
      (ticks : List (Tick D)) (s : DataPath D)
      → IsMain s
      → s.loop_count < 200000
      → 200000 ≤ s.loop_count + length ticks
      → Leaves ticks s
  unfolding main_loop
  main_loop-Leaves [] s v lt enough = absurd (omega arith)
  main_loop-Leaves (tick ∷ ticks) s v lt enough =
      let (t, e, count, drops, v') = one_round-Steps tick s v lt in
      elim (Bool-cases (leb 200000 (s.loop_count + 1))) [
        | inl last ↦ (
          t,
          ap (unless_left D (main_loop D ticks)) (e ∙ ap (λ b. some (b, t)) last),
          ground (arith, count),
          drops,
        )
        | inr more ↦
            let (u, e', count', drops') =
              main_loop-Leaves ticks t v' (ground (arith, count)) (omega (arith, count)) in
            (
              u,
              ap (unless_left D (main_loop D ticks)) (e ∙ ap (λ b. some (b, t)) more) ∙ e',
              count',
              drops' ∙ drops,
            )
      ]

  -- With at least 200000 ticks before the signal, `main` leaves its loop by `break`, when the loop counter is
  -- 200000, whatever `inet_pton` answers and the clock says: neither its XDP program nor its filter rule drops
  -- a frame, so each round counts.
  pub main-leaves :
      (inet_pton : List ℕ → Option ℕ) (ticks : List (Tick D))
      → 200000 ≤ length ticks
      → (s : DataPath D) × (setup D inet_pton ≡ ok s)
        × (t : DataPath D) × (main_loop D ticks s ≡ some (true, t))
        × (t.loop_count ≡ 200000)
        × (t.metrics.drop_packets ≡ 0)
  unfolding data_path
  main-leaves inet_pton ticks enough =
      let s = data_path D (routes D inet_pton) in
      let ready = data_path-IsReady D (routes D inet_pton) in
      let v : IsMain s = record { programs = ready.programs; rules = ready.rules } in
      let (t, e, count, drops) = main_loop-Leaves ticks s v (omega arith) (omega arith) in
      (s, setup_lem D inet_pton, t, e, count, drops)
