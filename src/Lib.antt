-- ===== src/Lib.antt =====
-- AetherPlane: a model of the C++ data path of the repository, in one tree of modules per component.
--
-- A frame enters as a byte buffer. `Packet` (src/core/packet.cpp) parses its headers into metadata, the attached
-- programs (src/core/xdp_hook.cpp) and the rules (src/core/filter_engine.cpp) may drop it or give it a class, the
-- classifier (src/qos/flow_classifier.cpp) tracks its flow and predicts a class, the routing table
-- (src/core/lpm_trie.cpp) finds its egress by the longest prefix, the scheduler
-- (src/qos/smart_scheduler.cpp) queues it by its traffic class and sends it by strict priority and deficit round
-- robin. Rings (include/core/ring_buffer.hpp) join the stages, and the checksum engine (src/core/checksum.cpp)
-- computes and updates Internet checksums. Counters are kept by the devices (src/core/virtual_netdev.cpp) and the metrics
-- collector (src/telemetry/metrics_collector.cpp); src/core/rss_dispatcher.cpp spreads packets over cores.
--
--   Base: lists, machine words, Boolean tests, arrays and facts on binary digits. A w-bit integer is a natural
--   number whose arithmetic is taken modulo 2 ^ w where it is written. `Base.Double` is the interface of `double`:
--   a type and the operations that the code uses, without any law.
--   Ring: `SPSCRingBuffer` with `push`, `pop`, `size` and `empty` (here `is_empty`), its two counters modulo
--   2 ^ 64 and its slots as a function of the index. Ring.Queue is the abstract queue that it refines. Ring.Threads is the
--   same code by two threads, one access of the memory at a time.
--   Lpm: `LPMTrie` as a binary trie with `insert_route`, `delete_route` and `lookup` on addresses and prefix
--   lengths, and on text (Lpm.Cidr). Lpm.Table is the abstract table: prefixes and their entries.
--   Checksum: `compute_checksum` with its unrolled loop, the IPv4, TCP and UDP checksums and the incremental
--   updates, on a little-endian host. Checksum.Sum is the independent sum of 16-bit words.
--   Packet: `PacketMeta` and `parse_headers`; a read outside the buffer is `none`. Packet.Encode writes the packed
--   structs of include/core/packet.hpp back to bytes; Packet.Text prints packets and addresses.
--   Filter: `FilterEngine`, its rules and its connection table, whose keys are printed text. Filter.Track compares the
--   table with the history of packets.
--   Flow: `FlowClassifier`, its table, its windows of 50 values, its features on an abstract `double`, and its decision
--   tree.
--   Rss: `RSSDispatcher`. Netdev: `VirtualNetDev` on two rings. Xdp: `XDPHookEngine`, whose programs are
--   functions. Metrics: `MetricsCollector`, each call one step. Xsk: `XSKUmemPool`, a frame as its offset in the
--   buffer. Worker: `WorkerPool`, whose threads make one access at a time: the workers
--   (Worker.worker_loop), the dispatcher and the caller of `start` and `stop` (Worker.Threads). Worker.Staff is the
--   invariant of their interleavings, and Worker.Countdown the accesses that a thread has left once `stop` is called.
--   Codel: `FQCoDelScheduler`, the hash of a packet to its flow, the drop decision, `enqueue`, and `dequeue` with its
--   loop over the new and the old flows (Codel.Dequeue). Codel.Sound is its invariant and the measure of the loop.
--   Pipeline: `main` (src/main.cpp), its set-up, the synthetic frame and the stages from the XDP hook to the
--   transmit ring, composed of the other parts. Pipeline.Ledger is what the counters of all parts say together, and
--   Pipeline.Place where a frame comes to stand.
--   Qos: `SmartQoSScheduler` with the five queues, their deficits as `int32_t` bit patterns and their counters.
--
-- Bounds: the loops over a list are structural; the walks of the trie are on the 32 bits of an address, and the
-- folding loop of the checksum runs on fuel, for which the theorems show that it ends. The loop of the FQ-CoDel
-- `dequeue` runs on fuel too: each round takes a packet, a flow that waits, or one of the quanta that a debt needs, and
-- `rounds_left` counts these. The main loop is structural on the ticks that come before the signal. The invariant of the scheduler assumes frames
-- of 60 bytes or more.
--
-- Not modelled: the reading of the clock (a timestamp is an argument), memory orders weaker than an interleaving of
-- the accesses, threads other than those of a ring and of `WorkerPool` (each other call is one step), the pinning of
-- threads, what `main` prints, and `inet_pton` and `inet_ntop`, which are parameters.
pub mod Base
pub mod Ring
pub mod Rss
pub mod Checksum
pub mod Codel
pub mod Filter
pub mod Flow
pub mod Lpm
pub mod Metrics
pub mod Pipeline
pub mod Netdev
pub mod Packet
pub mod Qos
pub mod Worker
pub mod Xdp
pub mod Xsk
