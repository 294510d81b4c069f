-- ===== src/Flow/Tests.antt =====
-- Small flows, and the theorems at them, with whole numbers for doubles.
use aether_plane.Base.{ℕ, ◌≡◌, refl, List, [], ◌∷◌, replicate, arith}
use aether_plane.Base.Double.{whole_numbers}
use aether_plane.Base.Text.{decimal}
use aether_plane.Packet.{Packet, default_meta, gaming_low_lat}
use aether_plane.Flow.{FlowStats, FlowClassifier, init, make_flow_key, new_flow, track_and_classify}
use aether_plane.Flow.Decide.{track_and_classify-first_udp}

-- A UDP packet of `n` bytes at time `t`.
abbrev udp : ℕ → ℕ → Packet
udp n t = record {
  buffer = replicate n 0;
  meta = record default_meta {
    l3_proto = 17;
    src_ip = 1;
    dest_ip = 2;
    src_port = 4000;
    dest_port = 4001;
    timestamp_ns = t;
  };
}

abbrev history : List Packet
history = udp 80 9000 ∷ udp 1400 5000 ∷ udp 70 1000 ∷ []

abbrev start : FlowClassifier whole_numbers
start = init whole_numbers

abbrev large : FlowStats whole_numbers
large = new_flow whole_numbers 1 (udp 1400 0)

-- 1:4000<->2:4001:17
key_test :
    make_flow_key (udp 60 0).meta
    ≡ 49 ∷ 58 ∷ 52 ∷ 48 ∷ 48 ∷ 48 ∷ 60 ∷ 45 ∷ 62 ∷ 50 ∷ 58 ∷ 52 ∷ 48 ∷ 48 ∷ 49 ∷ 58 ∷ 49 ∷ 55 ∷ []
unfolding make_flow_key decimal
key_test = refl

track_and_classify-first_udp_example :
    (track_and_classify whole_numbers start (udp 1400 0)).0 ≡ gaming_low_lat
track_and_classify-first_udp_example =
    track_and_classify-first_udp whole_numbers start (udp 1400 0) refl refl (omega arith) refl refl
