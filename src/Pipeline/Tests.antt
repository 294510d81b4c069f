-- ===== src/Pipeline/Tests.antt =====
-- Three rounds of `main`, and all of them.
use aether_plane.Base.{
  ℕ, ◌≡◌, List, [], ◌∷◌, Option, some, true, arith, replicate, length-replicate,
}
use aether_plane.Base.Double.{whole_numbers}
use aether_plane.Base.Result.{ok}
use aether_plane.Pipeline.{DataPath, Tick, setup, main_loop}
use aether_plane.Pipeline.Runs.{LoopEnds, main-Ledger}
use aether_plane.Pipeline.Progress.{main-leaves}

-- Each address is read as 192.168.1.1.
abbrev one_address : List ℕ → Option ℕ
one_address text = some 0xC0A80101

abbrev tick_at : ℕ → Tick whole_numbers
tick_at t = record { now_ns = t; elapsed = 1 }

main-Ledger_example :
    let D = whole_numbers in
    let ticks = tick_at 10 ∷ tick_at 20 ∷ tick_at 30 ∷ [] in
    (s : DataPath D) × (setup D one_address ≡ ok s) × LoopEnds D ticks 0 (main_loop D ticks s)
main-Ledger_example =
    main-Ledger whole_numbers one_address (tick_at 10 ∷ tick_at 20 ∷ tick_at 30 ∷ [])

abbrev all_ticks : List (Tick whole_numbers)
all_ticks = replicate 200000 (tick_at 10)

main-leaves_example :
    let D = whole_numbers in
    (s : DataPath D) × (setup D one_address ≡ ok s)
    × (t : DataPath D) × (main_loop D all_ticks s ≡ some (true, t))
    × (t.loop_count ≡ 200000)
    × (t.metrics.drop_packets ≡ 0)
main-leaves_example =
    main-leaves whole_numbers one_address all_ticks
      (omega (arith, length-replicate 200000 (tick_at 10)))
