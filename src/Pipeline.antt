-- ===== src/Pipeline.antt =====
-- src/main.cpp: the data path, which takes a frame through the XDP hook, the filter, the classifier, the routing
-- table and the scheduler to the transmit ring, and counts what happens to it.
pub mod Config
pub mod Frame
pub mod Ledger
pub mod Stages
pub mod Runs
pub mod Progress
pub mod Place
mod Tests
mod PlaceTests
use aether_plane.Base.{
  ℕ, ◌+◌, ◌%◌, Bool, true, false, ◌&&◌, List, [], ◌∷◌, Option, none, some, leb, ◌==◌, if◌then◌else◌,
  add64,
}
use aether_plane.Base.Double.{Double}
use aether_plane.Base.Result.{Result, ok, ◌>>=◌}
use aether_plane.Packet.{
  Packet, TrafficClass, size, class_index, best_effort, voice_control, ipproto_tcp, ipproto_udp,
  packet_of,
}
use aether_plane.Xdp.{
  XdpAction, XdpMeta, XdpHookEngine, xdp_drop, xdp_pass, xdp_aborted, xdp_tx, xdp_redirect,
}
use aether_plane.Filter.{AclRule, FilterEngine, FilterVerdict, accept, drop, reject, qos_queue}
use aether_plane.Flow.{FlowClassifier, track_and_classify}
use aether_plane.Lpm.{LpmTrie, RouteEntry}
use aether_plane.Lpm.Cidr.{insert_cidr}
use aether_plane.Netdev.{VirtualNetDev, no_packet}
use aether_plane.Metrics.{
  MetricsCollector, record_rx, record_tx, record_drop, record_class_packet, snapshot,
}
use aether_plane.Xdp
use aether_plane.Filter
use aether_plane.Flow
use aether_plane.Lpm
use aether_plane.Qos
use aether_plane.Netdev
use aether_plane.Metrics
use Frame.{frame}
use Config.{
  eth0_name, wlan0_name, local_cidr, local_hop, private_cidr, private_hop, default_cidr,
  default_hop, mitigator_text, xdp_ddos_mitigator, rule_ssh,
}

module _ (D : Double) where
  open D use {F, lit}

  -- The objects of `main`, and the metrics collector, which is a singleton.
  pub record DataPath : Type 0 where
    pub routing_table : LpmTrie
    pub xdp : XdpHookEngine
    pub netfilter : FilterEngine
    pub classifier : FlowClassifier D
    pub qos_scheduler : Qos.Scheduler D
    pub wlan0 : VirtualNetDev
    pub metrics : MetricsCollector
    pub loop_count : ℕ

  abbrev pub eth0 : VirtualNetDev
  eth0 = Netdev.init 1 eth0_name (0x00 ∷ 0x1A ∷ 0x2B ∷ 0x3C ∷ 0x4D ∷ 0x5E ∷ [])

  abbrev pub new_wlan0 : VirtualNetDev
  new_wlan0 = Netdev.init 2 wlan0_name (0x00 ∷ 0x1A ∷ 0x2B ∷ 0x3C ∷ 0x4D ∷ 0x5F ∷ [])

  -- The objects before the loop, with this routing table.
  unfoldable pub data_path : LpmTrie → DataPath
  data_path routing_table = record {
    routing_table = routing_table;
    xdp = Xdp.attach_program Xdp.init mitigator_text xdp_ddos_mitigator;
    netfilter = Filter.add_rule Filter.init rule_ssh;
    classifier = Flow.init D;
    qos_scheduler = Qos.set_wireless_link_rate_mbps D (Qos.init D) (lit 50 1);
    wlan0 = new_wlan0;
    metrics = Metrics.init;
    loop_count = 0;
  }

  -- The set-up, up to the loop. `inet_pton` reads an address; the answers of `insert_route` are not read.
  unfoldable pub setup : (List ℕ → Option ℕ) → Result DataPath
  setup inet_pton = do
    local ← insert_cidr inet_pton Lpm.init local_cidr local_hop new_wlan0.ifindex 10
    private ← insert_cidr inet_pton local.1 private_cidr private_hop eth0.ifindex 20
    default ← insert_cidr inet_pton private.1 default_cidr default_hop eth0.ifindex 100
    ok (data_path default.1)

  -- Step 6: dequeue and transmit. The answer of `enqueue_tx` is not read.
  abbrev pub transmit_found : DataPath → Bool × Packet × Qos.Scheduler D → DataPath
  transmit_found s (true, tx_pkt, q) = record s {
    qos_scheduler = q;
    wlan0 = (Netdev.enqueue_tx s.wlan0 tx_pkt).1;
    metrics = record_tx s.metrics (size tx_pkt);
  }
  transmit_found s (false, tx_pkt, q) = record s { qos_scheduler = q }

  unfoldable pub transmit : DataPath → DataPath
  transmit s = transmit_found s (Qos.dequeue D s.qos_scheduler no_packet)

  -- Step 5: enqueue into the scheduler, whose answer is not read, and count the packet as received.
  unfoldable pub schedule : DataPath → Packet → DataPath
  schedule s pkt = record s {
    qos_scheduler = (Qos.enqueue D s.qos_scheduler pkt).1;
    metrics = record_rx s.metrics (size pkt) 450;
  }

  -- Step 4: the egress interface of the route, if there is one.
  abbrev set_egress : Packet → Option RouteEntry → Packet
  set_egress pkt none = pkt
  set_egress pkt (some route) = record pkt {
    meta = record (pkt.meta) { egress_ifindex = route.egress_ifindex };
  }

  unfoldable pub route : DataPath → Packet → Packet
  route s pkt = set_egress pkt (Lpm.lookup s.routing_table pkt.meta.dest_ip)

  -- `(verd == QOS_QUEUE) ? assigned_class : ml_class`
  abbrev pub chosen_class : FilterVerdict → TrafficClass → TrafficClass → TrafficClass
  chosen_class qos_queue assigned_class ml_class = assigned_class
  chosen_class accept assigned_class ml_class = ml_class
  chosen_class drop assigned_class ml_class = ml_class
  chosen_class reject assigned_class ml_class = ml_class

  -- Step 3: track the flow and set the class of the packet.
  unfoldable pub classify : DataPath → Packet → FilterVerdict → TrafficClass → Packet × DataPath
  classify s pkt verd assigned_class =
      let (ml_class, c) = track_and_classify D s.classifier pkt in
      let class = chosen_class verd assigned_class ml_class in
      (
        record pkt { meta = record (pkt.meta) { traffic_class = class } },
        record s { classifier = c; metrics = record_class_packet s.metrics (class_index class) },
      )

  -- Steps 3 to 6, for a packet that the filter lets pass.
  unfoldable pub forward : DataPath → Packet → FilterVerdict → TrafficClass → DataPath
  forward s pkt verd assigned_class =
      let s1 = record s { netfilter = Filter.update_conntrack s.netfilter pkt } in
      let (pkt', s2) = classify s1 pkt verd assigned_class in transmit (schedule s2 (route s2 pkt'))

  -- Where the loop body ends: by `continue`, or at its end.
  pub data Passage : Type 0 where
    continues : DataPath → Passage
    passes : DataPath → Passage

  abbrev pub count_drop : DataPath → DataPath
  count_drop s = record s { metrics = record_drop s.metrics }

  -- Step 2, by the verdict.
  unfoldable pub on_verdict : DataPath → Packet → FilterVerdict × TrafficClass → Passage
  on_verdict s pkt (drop, class) = continues (count_drop s)
  on_verdict s pkt (accept, class) = passes (forward s pkt accept class)
  on_verdict s pkt (reject, class) = passes (forward s pkt reject class)
  on_verdict s pkt (qos_queue, class) = passes (forward s pkt qos_queue class)

  abbrev pub filter : DataPath → Packet → Passage
  filter s pkt = on_verdict s pkt (Filter.evaluate s.netfilter pkt best_effort)

  -- After step 1, by the action.
  unfoldable pub on_action : DataPath → Packet → XdpAction → Passage
  on_action s pkt xdp_drop = continues (count_drop s)
  on_action s pkt xdp_aborted = filter s pkt
  on_action s pkt xdp_pass = filter s pkt
  on_action s pkt xdp_tx = filter s pkt
  on_action s pkt xdp_redirect = filter s pkt

  -- `XDPMeta xdp_meta;`
  abbrev pub no_meta : XdpMeta
  no_meta = record { rx_ring_index = 0; redirect_ifindex = 0; cpu_cycles_spent = 0 }

  -- Steps 1 to 6.
  unfoldable pub process : DataPath → Packet → Passage
  process s pkt =
      let (act, pkt', meta, xdp) = Xdp.process_packet s.xdp pkt no_meta in
      on_action (record s { xdp = xdp }) pkt' act

  -- What the clock says in one round: when the packet is made, and the seconds since the last snapshot.
  pub record Tick : Type 0 where
    pub now_ns : ℕ
    pub elapsed : F

  -- The end of the loop body. The snapshot is printed; what it leaves is the time and the counts it started from.
  unfoldable pub end_round : Tick → DataPath → Bool × DataPath
  end_round tick s =
      let n = add64 s.loop_count 1 in
      let metrics = if n % 50000 == 0 then (snapshot D s.metrics tick.elapsed).1 else s.metrics in
      (leb 200000 n, record s { loop_count = n; metrics = metrics })

  -- Whether the loop is left, and the state.
  abbrev pub after_passage : Tick → Passage → Bool × DataPath
  after_passage tick (continues s) = (false, s)
  after_passage tick (passes s) = end_round tick s

  -- One round of the loop. A read outside the frame would be `none`.
  abbrev pub with_packet : Tick → DataPath → Option Packet → Option (Bool × DataPath)
  with_packet tick s none = none
  with_packet tick s (some pkt) = some (after_passage tick (process s pkt))

  unfoldable pub one_round : Tick → DataPath → Option (Bool × DataPath)
  one_round tick s = with_packet tick s (packet_of (frame s.loop_count) tick.now_ns)

  -- The rest of the loop, unless this round left it.
  abbrev pub unless_left :
      (DataPath → Option (Bool × DataPath)) → Option (Bool × DataPath) → Option (Bool × DataPath)
  unless_left rest none = none
  unless_left rest (some (true, s)) = some (true, s)
  unless_left rest (some (false, s)) = rest s

  -- The loop; a signal ends it after the last of the ticks. The Boolean says whether `break` left it.
  unfoldable pub main_loop : List Tick → DataPath → Option (Bool × DataPath)
  main_loop [] s = some (false, s)
  main_loop (tick ∷ ticks) s = unless_left (main_loop ticks) (one_round tick s)
