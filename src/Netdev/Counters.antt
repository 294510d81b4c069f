-- ===== src/Netdev/Counters.antt =====
-- The counters of a device over any sequence of calls.
use aether_plane.Base.{
  ℕ, ◌+◌, ◌≡◌, refl, List, [], ◌∷◌, arith, if◌then◌else◌, add64, u64, inl, inr, Bool-cases,
}
use aether_plane.Packet.{Packet}
use aether_plane.Ring.{Ring}
use aether_plane.Ring
use aether_plane.Ring.Inv.{IsValid, count, init-IsValid, push-IsValid, pop-IsValid}
use aether_plane.Netdev.{
  VirtualNetDev, no_packet, init, enqueue_rx, dequeue_rx, enqueue_tx, dequeue_tx,
}

-- How many items a push adds, and a pop takes.
pub push-count :
    (r : Ring Packet) (p : Packet)
    → IsValid 10 r
    → count (Ring.push 1024 r p).1 ≡ (if (Ring.push 1024 r p).0 then count r + 1 else count r)
unfolding Ring.push
push-count r p v = ground arith

pub pop-count :
    (r : Ring Packet) (p : Packet)
    → IsValid 10 r
    → count r ≡ (
        if (Ring.pop 1024 r p).0
        then count (Ring.pop 1024 r p).2 + 1
        else count (Ring.pop 1024 r p).2)
unfolding Ring.pop
pop-count r p v = ground arith

pub data Call : Type 0 where
  receive : Packet → Call
  take_received : Packet → Call
  transmit : Packet → Call
  take_transmitted : Packet → Call

-- An observer's count of the packets offered to a ring and delivered from it.
pub record Tally : Type 0 where
  pub rx_offered : ℕ
  pub rx_delivered : ℕ
  pub tx_offered : ℕ
  pub tx_delivered : ℕ

abbrev pub no_tally : Tally
no_tally = record { rx_offered = 0; rx_delivered = 0; tx_offered = 0; tx_delivered = 0 }

unfoldable pub step : VirtualNetDev × Tally → Call → VirtualNetDev × Tally
step (d, t) (receive p) = ((enqueue_rx d p).1, record t { rx_offered = t.rx_offered + 1 })
step (d, t) (take_received p) = (
  (dequeue_rx d p).2,
  record t { rx_delivered = if (dequeue_rx d p).0 then t.rx_delivered + 1 else t.rx_delivered },
)
step (d, t) (transmit p) = ((enqueue_tx d p).1, record t { tx_offered = t.tx_offered + 1 })
step (d, t) (take_transmitted p) = (
  (dequeue_tx d p).2,
  record t { tx_delivered = if (dequeue_tx d p).0 then t.tx_delivered + 1 else t.tx_delivered },
)

unfoldable pub run : VirtualNetDev × Tally → List Call → VirtualNetDev × Tally
run s [] = s
run s (c ∷ cs) = run (step s c) cs

-- Modulo 2 ^ 64, what was offered was counted as passed or dropped, and what passed was delivered or is still
-- in the ring.
pub record Balances (r : Ring Packet) (packets drops offered delivered : ℕ) : Type 0 where
  pub valid : IsValid 10 r
  pub counted : add64 packets drops ≡ u64 offered
  pub kept : packets ≡ u64 (delivered + count r)

push-Balances :
    (r : Ring Packet) (p : Packet) (packets drops offered delivered : ℕ)
    → Balances r packets drops offered delivered
    → Balances
        (Ring.push 1024 r p).1
        (if (Ring.push 1024 r p).0 then add64 packets 1 else packets)
        (if (Ring.push 1024 r p).0 then drops else add64 drops 1)
        (offered + 1)
        delivered
push-Balances r p packets drops offered delivered b = record {
  valid = push-IsValid 10 (omega arith) p b.valid;
  counted = ground (arith, b.counted);
  kept = ground (arith, b.kept, push-count r p b.valid);
}

pop-Balances :
    (r : Ring Packet) (p : Packet) (packets drops offered delivered : ℕ)
    → Balances r packets drops offered delivered
    → Balances
        (Ring.pop 1024 r p).2
        packets
        drops
        offered
        (if (Ring.pop 1024 r p).0 then delivered + 1 else delivered)
pop-Balances r p packets drops offered delivered b = record {
  valid = pop-IsValid 10 (omega arith) p b.valid;
  counted = b.counted;
  kept = ground (arith, b.kept, pop-count r p b.valid);
}

pub enqueue_tx-Balances :
    (d : VirtualNetDev) (p : Packet) (offered delivered : ℕ)
    → Balances d.tx_ring d.tx_packets d.tx_drops offered delivered
    → let d' = (enqueue_tx d p).1 in
      Balances d'.tx_ring d'.tx_packets d'.tx_drops (offered + 1) delivered
unfolding enqueue_tx
enqueue_tx-Balances d p offered delivered b =
    let tx = push-Balances d.tx_ring p d.tx_packets d.tx_drops offered delivered b in
    elim (Bool-cases (Ring.push 1024 d.tx_ring p).0) [
      | inl e ↦ rw e (rw e at tx)
      | inr e ↦ rw e (rw e at tx)
    ]

pub record IsBalanced (s : VirtualNetDev × Tally) : Type 0 where
  pub rx : Balances s.0.rx_ring s.0.rx_packets s.0.rx_drops s.1.rx_offered s.1.rx_delivered
  pub tx : Balances s.0.tx_ring s.0.tx_packets s.0.tx_drops s.1.tx_offered s.1.tx_delivered

step-IsBalanced : (s : VirtualNetDev × Tally) (c : Call) → IsBalanced s → IsBalanced (step s c)
unfolding step enqueue_rx dequeue_rx enqueue_tx dequeue_tx
step-IsBalanced (d, t) (receive p) b =
    let rx = push-Balances d.rx_ring p d.rx_packets d.rx_drops t.rx_offered t.rx_delivered b.rx in
    elim (Bool-cases (Ring.push 1024 d.rx_ring p).0) [
      | inl e ↦ rw e (record { rx = rw e at rx; tx = b.tx })
      | inr e ↦ rw e (record { rx = rw e at rx; tx = b.tx })
    ]
step-IsBalanced (d, t) (take_received p) b = record {
  rx = pop-Balances d.rx_ring p d.rx_packets d.rx_drops t.rx_offered t.rx_delivered b.rx;
  tx = b.tx;
}
step-IsBalanced (d, t) (transmit p) b =
    let tx = push-Balances d.tx_ring p d.tx_packets d.tx_drops t.tx_offered t.tx_delivered b.tx in
    elim (Bool-cases (Ring.push 1024 d.tx_ring p).0) [
      | inl e ↦ rw e (record { rx = b.rx; tx = rw e at tx })
      | inr e ↦ rw e (record { rx = b.rx; tx = rw e at tx })
    ]
step-IsBalanced (d, t) (take_transmitted p) b = record {
  rx = b.rx;
  tx = pop-Balances d.tx_ring p d.tx_packets d.tx_drops t.tx_offered t.tx_delivered b.tx;
}

run-keeps : (cs : List Call) (s : VirtualNetDev × Tally) → IsBalanced s → IsBalanced (run s cs)
unfolding run
run-keeps [] s b = b
run-keeps (c ∷ cs) s b = run-keeps cs (step s c) (step-IsBalanced s c b)

pub init-Balances : Balances (Ring.init 1024 no_packet) 0 0 0 0
unfolding Ring.init
init-Balances = record {
  valid = init-IsValid 10 (omega arith) no_packet;
  counted = refl;
  kept = refl;
}

-- After any calls on a new device, for each of its rings and modulo 2 ^ 64: the packets counted as passed and as
-- dropped are those that were offered, and the packets counted as passed are those delivered and those still in
-- the ring, which holds at most 1024.
pub run-IsBalanced :
    (ifindex : ℕ) (name mac : List ℕ) (cs : List Call)
    → IsBalanced (run (init ifindex name mac, no_tally) cs)
unfolding init
run-IsBalanced ifindex name mac cs =
    run-keeps cs (init ifindex name mac, no_tally)
      (record { rx = init-Balances; tx = init-Balances })
