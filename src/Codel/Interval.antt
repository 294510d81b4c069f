-- ===== src/Codel/Interval.antt =====
-- When the drop decision says to drop: only after a whole interval above the target.
use aether_plane.Base.{ℕ, ◌+◌, ◌^◌, ◌≤◌, ◌<◌, ◌≡◌, ◌⊎◌, List, [], ◌∷◌}
use aether_plane.Packet.{Packet}
use aether_plane.Codel.{FlowQueue, sojourn, codel_decision}

-- A decision: the packet, the bytes in the flow and the time at that moment.
pub record Sample : Type 0 where
  pub packet : Packet
  pub bytes : ℕ
  pub now_ns : ℕ

-- The flow over the decisions, the newest first.
unfoldable pub after : FlowQueue → List Sample → FlowQueue
after flow [] = flow
after flow (o ∷ earlier) =
    (codel_decision (record (after flow earlier) { total_bytes = o.bytes }) o.packet o.now_ns).1

-- Five milliseconds in the queue, and a quantum of bytes behind.
abbrev pub IsAbove : Sample → Type 0
IsAbove o = (5000000 ≤ sojourn o.packet o.now_ns) × (1514 ≤ o.bytes)

-- The samples are above without a gap back to one at time `t`.
pub data Since (t : ℕ) : List Sample → Type 0 where
  first : {o : Sample} {earlier : List Sample} → IsAbove o → o.now_ns ≡ t → Since t (o ∷ earlier)
  next : {o : Sample} {earlier : List Sample} → IsAbove o → Since t earlier → Since t (o ∷ earlier)

-- The clock is not within an interval of its wrap around.
abbrev pub InTime : List Sample → Type 0
InTime [] = Unit {0}
InTime (o ∷ earlier) = (o.now_ns + 100000000 < 2 ^ 64) × InTime earlier

abbrev Watches : ℕ → List Sample → Type 0
Watches first_above h = (first_above ≡ 0) ⊎ ((t : ℕ) × (first_above ≡ t + 100000000) × Since t h)
