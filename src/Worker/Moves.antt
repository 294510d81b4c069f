-- ===== src/Worker/Moves.antt =====
-- One access of a worker of include/core/worker_pool.hpp keeps what every core holds.
use native.Mathlib.Decide.{ℕ_discrete}
use aether_plane.Base.{
  ℕ, ◌<◌, ◌≡◌, ◌≢◌, refl, sym, ap, List, [], ◌∷◌, ◌++◌, length, get_or-set_self, get_or-set_ne,
  if◌then◌else◌, add64, inl, inr, Bool-cases, subst, ◌==◌, get_or, set, update, update_self,
  update_ne,
}
use aether_plane.Packet.{Packet}
use aether_plane.Ring.{Ring, slot}
use aether_plane.Ring.Threads.{no_pop, head_loaded, not_empty, item_read}
use aether_plane.Netdev.{no_packet}
use aether_plane.Worker.{
  CoreMetrics, count_packet, count_bytes, Point, testing, popping, popped, counted, ended, Worker,
  worker_loop, nobody, thread,
}
use aether_plane.Worker.Threads.{System, lane, work, consumer_at}
use aether_plane.Worker.Lane.{
  Holds, IsIdle, idle-Holds, seen, load_head-Holds, load_tail-Holds, read_slot-Holds,
  store_head-Holds, count_packet-Holds, count_bytes-Holds,
}
use aether_plane.Worker.Crew.{testing-IsIdle, ended-IsIdle}

abbrev pub AllHold : System → Type 0
AllHold s = (j : ℕ) → Holds (lane s j) (thread s.pool j).point (s.pool.metrics j)

abbrev placed : ℕ → Point → Worker
placed k point = record { core_id = k; point = point }

-- The thread in place `k` goes on to a point and changes memory of its own core alone.
moved-AllHold :
    (s : System) (k : ℕ) (point : Point) (rings : ℕ → Ring Packet) (metrics : ℕ → CoreMetrics)
    (taken : ℕ → List Packet)
    → k < length s.pool.worker_threads
    → AllHold s
    → ((j : ℕ)
        → j ≢ k
        → (rings j ≡ s.pool.worker_rings j)
          × (metrics j ≡ s.pool.metrics j)
          × (taken j ≡ s.taken j))
    → Holds
        (record (lane s k) { ring = rings k; consumer = consumer_at point; popped = taken k })
        point
        (metrics k)
    → AllHold (record s {
      pool = record (s.pool) {
        worker_rings = rings;
        metrics = metrics;
        worker_threads = set s.pool.worker_threads k (placed k point);
      };
      taken = taken;
    })
moved-AllHold s k point rings metrics taken lt all others own j =
    let ws = s.pool.worker_threads in
    let Q = λ (w : Worker) (r : Ring Packet) (m : CoreMetrics) (t : List Packet).
      Holds (record (lane s j) { ring = r; consumer = consumer_at w.point; popped = t }) w.point
        m in
    elim (ℕ_discrete j k) [
      | yes e ↦
          subst
            (λ i.
              Holds
                (record (lane s i) {
                  ring = rings i;
                  consumer = consumer_at (get_or (set ws k (placed k point)) i nobody).point;
                  popped = taken i;
                })
                (get_or (set ws k (placed k point)) i nobody).point (metrics i))
            (sym e) (rw (get_or-set_self ws k (placed k point) nobody lt) own)
      | no ne ↦
          let (r, m, t) = others j ne in
          subst (λ w. Q w (rings j) (metrics j) (taken j))
            (sym (get_or-set_ne ws k j (placed k point) nobody (λ e. ne (sym e))))
            (subst (λ x. Q (thread s.pool j) x (metrics j) (taken j)) (sym r)
              (subst (λ x. Q (thread s.pool j) (s.pool.worker_rings j) x (taken j)) (sym m)
                (subst (λ x. Q (thread s.pool j) (s.pool.worker_rings j) (s.pool.metrics j) x)
                  (sym t) (all j))))
    ]

same :
    (s : System) (k j : ℕ)
    → j ≢ k
    → (s.pool.worker_rings j ≡ s.pool.worker_rings j)
      × (s.pool.metrics j ≡ s.pool.metrics j)
      × (s.taken j ≡ s.taken j)
same s k j ne = (refl, refl, refl)

placed-AllHold :
    (s : System) (k : ℕ) (point : Point)
    → k < length s.pool.worker_threads
    → AllHold s
    → Holds (seen (lane s k) point) point (s.pool.metrics k)
    → AllHold (work s k (placed k point))
unfolding worker_loop
placed-AllHold s k testing lt all h =
    let point = if s.pool.running then popping no_pop else ended in
    let idle : IsIdle point = elim (Bool-cases s.pool.running) [
      | inl e ↦ rw e (record { outside = refl; packets = refl; bytes = refl })
      | inr e ↦ rw e ended-IsIdle
    ] in
    moved-AllHold s k point s.pool.worker_rings s.pool.metrics s.taken lt all (same s k)
      (idle-Holds (lane s k) testing point (s.pool.metrics k) testing-IsIdle idle h)
placed-AllHold s k (popping no_pop) lt all h =
    moved-AllHold s k (popping (head_loaded (s.pool.worker_rings k).head)) s.pool.worker_rings
      s.pool.metrics s.taken lt all (same s k) (load_head-Holds (lane s k) (s.pool.metrics k) h)
placed-AllHold s k (popping (head_loaded head)) lt all h =
    moved-AllHold s k
      (if head == (s.pool.worker_rings k).tail then testing else popping (not_empty head))
      s.pool.worker_rings s.pool.metrics s.taken lt all (same s k)
      (load_tail-Holds (lane s k) (s.pool.metrics k) head h)
placed-AllHold s k (popping (not_empty head)) lt all h =
    let pkt = get_or (s.pool.worker_rings k).buffer (slot 1024 head) no_packet in
    moved-AllHold s k (popping (item_read head pkt)) s.pool.worker_rings s.pool.metrics s.taken lt
      all (same s k) (read_slot-Holds (lane s k) (s.pool.metrics k) head h)
placed-AllHold s k (popping (item_read head pkt)) lt all h =
    let ring = record (s.pool.worker_rings k) { head = add64 head 1 } in
    let items = s.taken k ++ (pkt ∷ []) in
    moved-AllHold s k (popped pkt) (update s.pool.worker_rings k ring) s.pool.metrics
      (update s.taken k items) lt all
      (λ j ne. (update_ne s.pool.worker_rings k j ring ne, refl, update_ne s.taken k j items ne))
      (rw (update_self s.pool.worker_rings k ring, update_self s.taken k items)
        (store_head-Holds (lane s k) (s.pool.metrics k) head pkt h))
placed-AllHold s k (popped pkt) lt all h =
    let m = count_packet (s.pool.metrics k) in
    moved-AllHold s k (counted pkt) s.pool.worker_rings (update s.pool.metrics k m) s.taken lt all
      (λ j ne. (refl, update_ne s.pool.metrics k j m ne, refl))
      (rw (update_self s.pool.metrics k m) (count_packet-Holds (lane s k) (s.pool.metrics k) pkt h))
placed-AllHold s k (counted pkt) lt all h =
    let m = count_bytes (s.pool.metrics k) pkt in
    moved-AllHold s k testing s.pool.worker_rings (update s.pool.metrics k m) s.taken lt all
      (λ j ne. (refl, update_ne s.pool.metrics k j m ne, refl))
      (rw (update_self s.pool.metrics k m) (count_bytes-Holds (lane s k) (s.pool.metrics k) pkt h))
placed-AllHold s k ended lt all h = all

-- A step of the thread in place `k`, where the thread of each place serves the core of its number.
pub work-AllHold :
    (s : System) (k : ℕ)
    → (k < length s.pool.worker_threads → (thread s.pool k).core_id ≡ k)
    → k < length s.pool.worker_threads
    → AllHold s
    → AllHold (work s k (thread s.pool k))
work-AllHold s k own lt all =
    let w = thread s.pool k in
    let e : w ≡ placed k w.point = ap (λ c. record { core_id = c; point = w.point }) (own lt) in
    subst (λ x. AllHold (work s k x)) (sym e) (placed-AllHold s k w.point lt all (all k))
