-- ===== src/Xsk/Tests.antt =====
-- A client of the pool, and addresses at the bounds of the buffer.
use aether_plane.Base.{◌+◌, ◌-◌, ◌^◌, ◌*◌, ◌≤◌, ◌≡◌, ◌⊎◌, ◌↔◌, refl, [], ◌∷◌, none, some, arith}
use aether_plane.Xsk.{init, get_frame_ptr, frame_size, umem_size}
use aether_plane.Xsk.Pointer.{get_frame_ptr-some_iff}
use aether_plane.Xsk.Owners.{alloc, give_back, run}
use aether_plane.Xsk.Promise.{Promise, run-Promise}

-- The last frame, the first address past it, and an address whose frame wraps around.
pointers_test :
    (get_frame_ptr (4095 * 2048) ≡ some (4095 * 2048))
    × (get_frame_ptr (4095 * 2048 + 1) ≡ none)
    × (get_frame_ptr (2 ^ 64 - 1) ≡ some (2 ^ 64 - 1))
unfolding get_frame_ptr
pointers_test = (refl, refl, refl)

get_frame_ptr-some_iff_example :
    (get_frame_ptr (2 ^ 64 - 1) ≡ some (2 ^ 64 - 1))
    ↔ ((2 ^ 64 - 1 + frame_size ≤ umem_size) ⊎ (2 ^ 64 ≤ 2 ^ 64 - 1 + frame_size))
get_frame_ptr-some_iff_example = get_frame_ptr-some_iff (2 ^ 64 - 1) (omega arith)

run-Promise_example : Promise (run (init, []) (alloc ∷ alloc ∷ give_back 1 ∷ alloc ∷ []))
run-Promise_example = run-Promise (alloc ∷ alloc ∷ give_back 1 ∷ alloc ∷ [])
