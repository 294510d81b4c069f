-- ===== src/Worker/Lane.antt =====
-- What one core of include/core/worker_pool.hpp has taken from its ring, and what its counters say of it.
use aether_plane.Base.{
  ℕ, ◌+◌, ◌≤◌, ◌≡◌, refl, sym, ap, ◌∙◌, List, [], ◌∷◌, ◌++◌, arith, length, length-append,
  if◌then◌else◌, add64, u64, inl, inr, Bool-cases, subst, ◌==◌, get_or,
}
use aether_plane.Packet.{Packet, size}
use aether_plane.Ring.{Ring, slot}
use aether_plane.Ring.Threads.{no_pop, head_loaded, not_empty, item_read, Shared, consume}
use aether_plane.Ring.Coherent.{IsCoherent}
use aether_plane.Ring.Interleave.{consume-IsCoherent}
use aether_plane.Netdev.{no_packet}
use aether_plane.Worker.{
  CoreMetrics, count_packet, count_bytes, Point, testing, popping, popped, counted,
}
use aether_plane.Worker.Threads.{consumer_at}

abbrev pub sizes : List Packet → ℕ
sizes [] = 0
sizes (p ∷ ps) = size p + sizes ps

sizes-append : (ps qs : List Packet) → sizes (ps ++ qs) ≡ sizes ps + sizes qs
sizes-append [] qs = omega arith
sizes-append (p ∷ ps) qs = omega (arith, sizes-append ps qs)

-- What a thread has popped and not counted yet.
abbrev pub uncounted : Point → ℕ
uncounted (popped pkt) = 1
uncounted _ = 0

abbrev pub unadded : Point → ℕ
unadded (popped pkt) = size pkt
unadded (counted pkt) = size pkt
unadded _ = 0

abbrev pub few : 10 ≤ 63
few = omega arith

pub record Holds (l : Shared Packet) (point : Point) (m : CoreMetrics) : Type 0 where
  pub coherent : IsCoherent no_packet 10 few l
  pub packets : add64 m.processed_packets (uncounted point) ≡ u64 (length l.popped)
  pub bytes : add64 m.total_bytes (unadded point) ≡ u64 (sizes l.popped)

-- A point outside `pop` with nothing left to count.
pub record IsIdle (point : Point) : Type 0 where
  pub outside : consumer_at point ≡ no_pop
  pub packets : uncounted point ≡ 0
  pub bytes : unadded point ≡ 0

pub idle-Holds :
    (l : Shared Packet) (a b : Point) (m : CoreMetrics)
    → IsIdle a
    → IsIdle b
    → Holds (record l { consumer = consumer_at a }) a m
    → Holds (record l { consumer = consumer_at b }) b m
idle-Holds l a b m ia ib h = record {
  coherent =
      subst (λ c. IsCoherent no_packet 10 few (record l { consumer = c }))
        (ia.outside ∙ sym ib.outside) h.coherent;
  packets = ap (add64 m.processed_packets) (ib.packets ∙ sym ia.packets) ∙ h.packets;
  bytes = ap (add64 m.total_bytes) (ib.bytes ∙ sym ia.bytes) ∙ h.bytes;
}

abbrev pub seen : Shared Packet → Point → Shared Packet
seen l point = record l { consumer = consumer_at point }

-- Each access of `pop` by the thread of a core, and each of its two counts.
pub load_head-Holds :
    (l : Shared Packet) (m : CoreMetrics)
    → Holds (seen l (popping no_pop)) (popping no_pop) m
    → Holds (seen l (popping (head_loaded l.ring.head))) (popping (head_loaded l.ring.head)) m
unfolding consume
load_head-Holds l m h = record {
  coherent = consume-IsCoherent no_packet 10 few (seen l (popping no_pop)) no_pop h.coherent refl;
  packets = h.packets;
  bytes = h.bytes;
}

abbrev pub after_tail : Ring Packet → ℕ → Point
after_tail r head = if head == r.tail then testing else popping (not_empty head)

pub load_tail-Holds :
    (l : Shared Packet) (m : CoreMetrics) (head : ℕ)
    → Holds (seen l (popping (head_loaded head))) (popping (head_loaded head)) m
    → Holds (seen l (after_tail l.ring head)) (after_tail l.ring head) m
unfolding consume
load_tail-Holds l m head h =
    let c =
      consume-IsCoherent no_packet 10 few (seen l (popping (head_loaded head))) (head_loaded head)
        h.coherent refl in
    elim (Bool-cases (head == l.ring.tail)) [
      | inl empty ↦
          rw empty (record { coherent = rw empty at c; packets = h.packets; bytes = h.bytes })
      | inr some_item ↦
          rw some_item
            (record { coherent = rw some_item at c; packets = h.packets; bytes = h.bytes })
    ]

abbrev pub after_slot : Ring Packet → ℕ → Point
after_slot r head = popping (item_read head (get_or r.buffer (slot 1024 head) no_packet))

pub read_slot-Holds :
    (l : Shared Packet) (m : CoreMetrics) (head : ℕ)
    → Holds (seen l (popping (not_empty head))) (popping (not_empty head)) m
    → Holds (seen l (after_slot l.ring head)) (after_slot l.ring head) m
unfolding consume
read_slot-Holds l m head h = record {
  coherent =
      consume-IsCoherent no_packet 10 few (seen l (popping (not_empty head))) (not_empty head)
        h.coherent refl;
  packets = h.packets;
  bytes = h.bytes;
}

pub store_head-Holds :
    (l : Shared Packet) (m : CoreMetrics) (head : ℕ) (pkt : Packet)
    → Holds (seen l (popping (item_read head pkt))) (popping (item_read head pkt)) m
    → Holds
        (record l {
          ring = record (l.ring) { head = add64 head 1 };
          consumer = no_pop;
          popped = l.popped ++ (pkt ∷ []);
        })
        (popped pkt)
        m
unfolding consume
store_head-Holds l m head pkt h = record {
  coherent =
      consume-IsCoherent no_packet 10 few (seen l (popping (item_read head pkt)))
        (item_read head pkt) h.coherent refl;
  packets = omega (arith, h.packets, length-append l.popped (pkt ∷ []));
  bytes = omega (arith, h.bytes, sizes-append l.popped (pkt ∷ []));
}

pub count_packet-Holds :
    (l : Shared Packet) (m : CoreMetrics) (pkt : Packet)
    → Holds (seen l (popped pkt)) (popped pkt) m
    → Holds (seen l (counted pkt)) (counted pkt) (count_packet m)
count_packet-Holds l m pkt h = record {
  coherent = h.coherent;
  packets = omega (arith, h.packets);
  bytes = h.bytes;
}

pub count_bytes-Holds :
    (l : Shared Packet) (m : CoreMetrics) (pkt : Packet)
    → Holds (seen l (counted pkt)) (counted pkt) m
    → Holds (seen l testing) testing (count_bytes m pkt)
count_bytes-Holds l m pkt h = record {
  coherent = h.coherent;
  packets = h.packets;
  bytes = omega (arith, h.bytes);
}
