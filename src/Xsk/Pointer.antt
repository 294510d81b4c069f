-- ===== src/Xsk/Pointer.antt =====
-- The bounds of `get_frame_ptr`.
use aether_plane.Base.{ℕ, ◌+◌, ◌^◌, ◌≤◌, ◌<◌, ◌≡◌, ◌⊎◌, ◌↔◌, some, arith}
use aether_plane.Xsk.{get_frame_ptr, umem_size, frame_size}

-- On a 64-bit address, `get_frame_ptr` answers a pointer exactly when the frame at the address lies inside the
-- buffer, or the address is so close to 2 ^ 64 that the end of the frame wraps around.
pub get_frame_ptr-some_iff :
    (addr : ℕ)
    → addr < 2 ^ 64
    → (get_frame_ptr addr ≡ some addr)
      ↔ ((addr + frame_size ≤ umem_size) ⊎ (2 ^ 64 ≤ addr + frame_size))
unfolding get_frame_ptr
get_frame_ptr-some_iff addr h = ground arith
