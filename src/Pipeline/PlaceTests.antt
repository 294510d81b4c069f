-- ===== src/Pipeline/PlaceTests.antt =====
-- A frame that is placed by the routes of `main`.
use aether_plane.Base.{◌≡◌, refl, ap, Bool, true, false, List, [], ◌∷◌, arith}
use mathlib.Core.Bool.{false≢true}
use aether_plane.Base.Double.{whole_numbers}
use aether_plane.Packet.{Packet, TrafficClass, best_effort}
use aether_plane.Xdp.{
  XdpAction, XdpHookEngine, xdp_drop, xdp_pass, xdp_aborted, xdp_tx, xdp_redirect, attach_program,
  process_packet, run_programs, on_action,
}
use aether_plane.Filter.{
  FilterVerdict, accept, drop, reject, qos_queue, add_rule, evaluate, evaluate_rules, skips,
}
use aether_plane.Flow.{track_and_classify}
use aether_plane.Lpm
use aether_plane.Lpm.Table.{Op, insert, best}
use aether_plane.Lpm.Refine.{run, table_after}
use aether_plane.Pipeline.{DataPath, data_path, passes, transmit, no_meta, process}
use aether_plane.Pipeline.Config.{xdp_ddos_mitigator}
use aether_plane.Pipeline.Frame.{frame_packet}
use aether_plane.Pipeline.Place.{IsClass, Placed, process-Placed}

abbrev routes : List Op
routes =
    insert 0xC0A80100 24 0xC0A80101 2 10
    ∷ insert 0x0A000000 8 0x0A000001 1 20
    ∷ insert 0 0 0xC0A801FE 1 100
    ∷ []

abbrev is_drop : XdpAction → Bool
is_drop xdp_drop = true
is_drop xdp_aborted = false
is_drop xdp_pass = false
is_drop xdp_tx = false
is_drop xdp_redirect = false

abbrev is_drop_verdict : FilterVerdict → Bool
is_drop_verdict drop = true
is_drop_verdict accept = false
is_drop_verdict reject = false
is_drop_verdict qos_queue = false

abbrev state : DataPath whole_numbers
state = data_path whole_numbers (run Lpm.init routes)

-- What the XDP programs and the filter make of the frame.
abbrev checked : XdpHookEngine
checked = record (state.xdp) { total_processed = 1 }

programs_test :
    process_packet state.xdp (frame_packet 1 10) (no_meta whole_numbers)
    ≡ (xdp_pass, frame_packet 1 10, no_meta whole_numbers, checked)
unfolding data_path process_packet run_programs on_action xdp_ddos_mitigator attach_program
programs_test = refl

filter_test : evaluate state.netfilter (frame_packet 1 10) best_effort ≡ (accept, best_effort)
unfolding data_path add_rule evaluate evaluate_rules skips
filter_test = refl

process-Placed_example :
    let frame = frame_packet 1 10 in
    (p : Packet) × (t : DataPath whole_numbers) × (c : TrafficClass) × (process whole_numbers state
        frame
      ≡ passes (transmit whole_numbers t))
    × IsClass whole_numbers accept best_effort
        (track_and_classify whole_numbers state.classifier frame).0
        c
    × Placed whole_numbers state t frame p c (best 0x0A000001 (table_after [] routes))
unfolding data_path
process-Placed_example =
    process-Placed whole_numbers routes state (frame_packet 1 10) (frame_packet 1 10) xdp_pass
      (no_meta whole_numbers) checked accept best_effort
      (omega arith, (omega arith, (omega arith, tt))) refl programs_test filter_test
      (λ h. false≢true (ap is_drop h)) (λ h. false≢true (ap is_drop_verdict h)) (omega arith)
