-- ===== src/Netdev/Tests.antt =====
-- A device that receives, delivers and transmits.
use aether_plane.Base.{◌≡◌, refl, List, [], ◌∷◌}
use aether_plane.Ring.{slot}
use aether_plane.Ring
use aether_plane.Netdev.{init, no_packet, enqueue_rx, rx_depth}
use aether_plane.Netdev.Counters.{
  Call, receive, take_received, transmit, take_transmitted, no_tally, run, IsBalanced,
  run-IsBalanced,
}

abbrev calls : List Call
calls =
    receive no_packet
    ∷ receive no_packet
    ∷ take_received no_packet
    ∷ transmit no_packet
    ∷ take_transmitted no_packet
    ∷ take_transmitted no_packet
    ∷ []

depth_test : rx_depth (enqueue_rx (init 1 [] []) no_packet).1 ≡ 1
unfolding rx_depth enqueue_rx init Ring.push Ring.init Ring.size
depth_test = refl

run-IsBalanced_example : IsBalanced (run (init 1 [] [], no_tally) calls)
run-IsBalanced_example = run-IsBalanced 1 [] [] calls
