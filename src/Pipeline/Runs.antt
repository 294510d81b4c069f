-- ===== src/Pipeline/Runs.antt =====
-- Runs of `main`: the set-up, the rounds of the loop, and the accounts after them.
use aether_plane.Base.{
  ℕ, suc, ◌+◌, ◌≤◌, ◌≡◌, refl, sym, ap, subst, Bool, true, false, List, [], ◌∷◌, Option, some,
  arith, length,
}
use mathlib.Core.Bool.{false≢true}
use aether_plane.Base.Double.{Double}
use aether_plane.Base.Result.{ok}
use aether_plane.Packet.{Packet}
use aether_plane.Netdev.Counters.{init-Balances}
use aether_plane.Lpm.{LpmTrie, insert_route}
use aether_plane.Lpm.Cidr.{ip_from_string, insert_cidr, split_slash, stoi}
use aether_plane.Lpm
use aether_plane.Netdev
use aether_plane.Qos
use aether_plane.Xdp
use aether_plane.Filter
use aether_plane.Pipeline.{
  with_packet, data_path, DataPath, Passage, continues, passes, process, Tick, after_passage,
  one_round, unless_left, main_loop, setup,
}
use aether_plane.Pipeline.Config.{
  local_hop, private_hop, default_hop, mitigator_text, xdp_ddos_mitigator, rule_ssh,
}
use aether_plane.Pipeline.Frame.{frame_packet, packet_of-frame}
use aether_plane.Pipeline.Ledger.{Ledger, class_total, same_count}
use aether_plane.Pipeline.Stages.{LedgerAfter, process-Ledger, end_round-Ledger}
use aether_plane.Qos.Stock.{held, refused, dropped}
use aether_plane.Qos.{no_stats}
use aether_plane.Base.Sums.{sum_over_zero}

-- The prefixes of the set-up without their lengths.
abbrev local_prefix : List ℕ
local_prefix = 49 ∷ 57 ∷ 50 ∷ 46 ∷ 49 ∷ 54 ∷ 56 ∷ 46 ∷ 49 ∷ 46 ∷ 48 ∷ []

abbrev private_prefix : List ℕ
private_prefix = 49 ∷ 48 ∷ 46 ∷ 48 ∷ 46 ∷ 48 ∷ 46 ∷ 48 ∷ []

abbrev default_prefix : List ℕ
default_prefix = 48 ∷ 46 ∷ 48 ∷ 46 ∷ 48 ∷ 46 ∷ 48 ∷ []

module _ (D : Double) where
  -- The parse of the frame always succeeds.
  pub one_round_lem :
      (tick : Tick D) (s : DataPath D)
      → one_round D tick s
        ≡ some (after_passage D tick (process D s (frame_packet s.loop_count tick.now_ns)))
  unfolding one_round
  one_round_lem tick s = ap (with_packet D tick s) (packet_of-frame s.loop_count tick.now_ns)

  after_passage-Ledger :
      (tick : Tick D) (n : ℕ) (r : Passage D)
      → LedgerAfter D n r
      → Ledger D n 0 0 (after_passage D tick r).1
  after_passage-Ledger tick n (continues t) l = l
  after_passage-Ledger tick n (passes t) l = end_round-Ledger D tick t n l

  -- After at most as many rounds as there are ticks, and after all of them unless `break` left the loop.
  abbrev pub LoopEnds : List (Tick D) → ℕ → Option (Bool × DataPath D) → Type 0
  LoopEnds ticks n r =
      (broke : Bool) × (t : DataPath D) × (m : ℕ) × (r ≡ some (broke, t))
      × (m ≤ length ticks)
      × (broke ≡ false → m ≡ length ticks)
      × Ledger D (n + m) 0 0 t

  unless_left-ends :
      (ticks : List (Tick D)) (tick : Tick D) (n : ℕ) (left : Bool) (s : DataPath D)
      → Ledger D (n + 1) 0 0 s
      → LoopEnds ticks (n + 1) (main_loop D ticks s)
      → LoopEnds (tick ∷ ticks) n (unless_left D (main_loop D ticks) (some (left, s)))
  unless_left-ends ticks tick n true s l rest =
      (true, s, 1, refl, omega arith, λ e. absurd (false≢true (sym e)), l)
  unless_left-ends ticks tick n false s l (broke, t, m, e, le, all, l') = (
    broke,
    t,
    suc m,
    e,
    omega arith,
    λ b. omega (arith, all b),
    subst (λ k. Ledger D k 0 0 t) (omega arith) l',
  )

  main_loop-ends :
      (ticks : List (Tick D)) (s : DataPath D) (n : ℕ)
      → Ledger D n 0 0 s
      → LoopEnds ticks n (main_loop D ticks s)
  unfolding main_loop
  main_loop-ends [] s n l =
      (false, s, 0, refl, omega arith, λ e. refl, subst (λ k. Ledger D k 0 0 s) (omega arith) l)
  main_loop-ends (tick ∷ ticks) s n l =
      let r = after_passage D tick (process D s (frame_packet s.loop_count tick.now_ns)) in
      let l' : Ledger D (n + 1) 0 0 r.1 =
        after_passage-Ledger tick (n + 1) (process D s (frame_packet s.loop_count tick.now_ns))
          (process-Ledger D s (frame_packet s.loop_count tick.now_ns) n l) in
      subst (λ q. LoopEnds (tick ∷ ticks) n (unless_left D (main_loop D ticks) q))
        (sym (one_round_lem tick s))
        (unless_left-ends ticks tick n r.0 r.1 l' (main_loop-ends ticks r.1 (n + 1) l'))

  -- The state after the set-up: no frame was made, and the programs and the rules are those of `main`.
  pub record IsReady (s : DataPath D) : Type 0 where
    pub accounts : Ledger D 0 0 0 s
    pub none_made : s.loop_count ≡ 0
    pub programs : s.xdp.attached_programs ≡ (mitigator_text, xdp_ddos_mitigator) ∷ []
    pub rules : s.netfilter.rules ≡ rule_ssh ∷ []

  pub data_path-IsReady : (t : LpmTrie) → IsReady (data_path D t)
  unfolding data_path class_total held refused Qos.init Qos.set_wireless_link_rate_mbps Netdev.init
      Xdp.attach_program Filter.add_rule
  data_path-IsReady t = record {
    accounts = record {
      made = refl;
      classified = omega (arith, sum_over_zero same_count 5 (λ i. 0) (λ i. refl));
      scheduled = omega (
        arith,
        sum_over_zero (length {A = Packet}) 5 (λ i. []) (λ i. refl),
        sum_over_zero (dropped D) 5 (λ i. no_stats D) (λ i. refl),
      );
      transmitted = init-Balances;
      looped = refl;
    };
    none_made = refl;
    programs = refl;
    rules = refl;
  }

  -- The three routes of the set-up, the last one first.
  unfoldable pub routes : (List ℕ → Option ℕ) → LpmTrie
  routes inet_pton =
      let ip = ip_from_string inet_pton in
      let local = insert_route Lpm.init (ip local_prefix) 24 (ip local_hop) 2 10 in
      let private = insert_route local.1 (ip private_prefix) 8 (ip private_hop) 1 20 in
      (insert_route private.1 (ip default_prefix) 0 (ip default_hop) 1 100).1

  pub setup_lem :
      (inet_pton : List ℕ → Option ℕ) → setup D inet_pton ≡ ok (data_path D (routes inet_pton))
  unfolding setup routes insert_cidr split_slash stoi Netdev.init
  setup_lem inet_pton = refl

  -- `main` runs, whatever `inet_pton` answers: the set-up throws nothing, no read lies outside a frame, and the
  -- loop ends by `break` or after a round for each of the ticks. Afterwards, with `m` the rounds made, these
  -- hold modulo 2 ^ 64: each frame was counted as dropped or as received; the class counters add up to the
  -- received packets; each received packet was counted as sent, waits in a queue of the scheduler, or was
  -- refused by a full one; each packet counted as sent was put into the transmit ring, where it still is, or was
  -- dropped because that ring, of at most 1024, was full; and the loop counter is the number of received packets.
  pub main-Ledger :
      (inet_pton : List ℕ → Option ℕ) (ticks : List (Tick D))
      → (s : DataPath D) × (setup D inet_pton ≡ ok s) × LoopEnds ticks 0 (main_loop D ticks s)
  main-Ledger inet_pton ticks =
      let s = data_path D (routes inet_pton) in
      (
        s,
        setup_lem inet_pton,
        main_loop-ends ticks s 0 (data_path-IsReady (routes inet_pton)).accounts,
      )
