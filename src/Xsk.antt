-- ===== src/Xsk.antt =====
-- include/core/xsk_umem.hpp and src/core/xsk_umem.cpp: `XSKUmemPool`, the frames of the shared memory and the five
-- rings around them. A pointer into the buffer is its offset.
pub mod Pointer
pub mod Frames
pub mod Owners
pub mod Promise
mod Tests
use aether_plane.Base.{ℕ, zero, suc, ◌+◌, ◌*◌, Bool, Option, none, some, ltb, if◌then◌else◌, add64}
use aether_plane.Ring.{Ring}
use aether_plane.Ring

abbrev pub frame_size : ℕ
frame_size = 2048

abbrev pub num_frames : ℕ
num_frames = 4096

-- `XSK_UMEM_NUM_FRAMES * XSK_UMEM_FRAME_SIZE`
abbrev pub umem_size : ℕ
umem_size = num_frames * frame_size

pub record XskFrameDescriptor : Type 0 where
  pub addr : ℕ
  pub len : ℕ
  pub flags : ℕ

abbrev pub no_descriptor : XskFrameDescriptor
no_descriptor = record { addr = 0; len = 0; flags = 0 }

pub record XskUmemPool : Type 0 where
  pub free_frame_ring : Ring ℕ
  pub fill_ring : Ring ℕ
  pub rx_ring : Ring XskFrameDescriptor
  pub tx_ring : Ring XskFrameDescriptor
  pub completion_ring : Ring ℕ

-- The loop of the constructor: `n` frames to go, from frame `i` on.
unfoldable pub push_frames : ℕ → ℕ → Ring ℕ → Ring ℕ
push_frames zero i r = r
push_frames (suc n) i r = push_frames n (i + 1) (Ring.push num_frames r (i * frame_size)).1

-- The constructor, when the allocation succeeds.
unfoldable pub init : XskUmemPool
init = record {
  free_frame_ring = push_frames num_frames 0 (Ring.init num_frames 0);
  fill_ring = Ring.init num_frames 0;
  rx_ring = Ring.init num_frames no_descriptor;
  tx_ring = Ring.init num_frames no_descriptor;
  completion_ring = Ring.init num_frames 0;
}

unfoldable pub get_frame_ptr : ℕ → Option ℕ
get_frame_ptr addr = if ltb umem_size (add64 addr frame_size) then none else some addr

-- `out_addr` is the reference parameter.
unfoldable pub alloc_frame : XskUmemPool → ℕ → Bool × ℕ × XskUmemPool
alloc_frame p out_addr =
    let (done, addr, ring) = Ring.pop num_frames p.free_frame_ring out_addr in
    (done, addr, record p { free_frame_ring = ring })

-- The answer of `push` is not read.
unfoldable pub free_frame : XskUmemPool → ℕ → XskUmemPool
free_frame p addr = record p { free_frame_ring = (Ring.push num_frames p.free_frame_ring addr).1 }

unfoldable pub enqueue_fill_ring : XskUmemPool → ℕ → Bool × XskUmemPool
enqueue_fill_ring p addr =
    let (done, ring) = Ring.push num_frames p.fill_ring addr in
    (done, record p { fill_ring = ring })

unfoldable pub dequeue_rx_ring :
    XskUmemPool → XskFrameDescriptor → Bool × XskFrameDescriptor × XskUmemPool
dequeue_rx_ring p desc =
    let (done, out, ring) = Ring.pop num_frames p.rx_ring desc in
    (done, out, record p { rx_ring = ring })

unfoldable pub enqueue_tx_ring : XskUmemPool → XskFrameDescriptor → Bool × XskUmemPool
enqueue_tx_ring p desc =
    let (done, ring) = Ring.push num_frames p.tx_ring desc in (done, record p { tx_ring = ring })

unfoldable pub dequeue_completion_ring : XskUmemPool → ℕ → Bool × ℕ × XskUmemPool
dequeue_completion_ring p out_addr =
    let (done, out, ring) = Ring.pop num_frames p.completion_ring out_addr in
    (done, out, record p { completion_ring = ring })

unfoldable pub available_frames : XskUmemPool → ℕ
available_frames p = Ring.size p.free_frame_ring
