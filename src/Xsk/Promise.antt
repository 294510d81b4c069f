-- ===== src/Xsk/Promise.antt =====
-- What the pool promises to a client that gives back only frames it holds.
use aether_plane.Base.{
  ℕ, ◌*◌, ◌<◌, ◌≡◌, refl, ap, ◌∙◌, ◌⊎◌, inl, inr, true, false, List, [], ◌∷◌, some, arith, length,
}
use aether_plane.Xsk.{XskUmemPool, init, alloc_frame, get_frame_ptr}
use aether_plane.Xsk.Pointer.{get_frame_ptr-some_iff}
use aether_plane.Xsk.Frames.{occurrences, occurrences_self, occurrences-frames}
use aether_plane.Xsk.Owners.{
  Call, run, free_frames, Owns, alloc_frame-empty, alloc_frame-first, init-Owns, run-keeps,
  present_once, held_never,
}

-- The pool's promise, after any calls of a client that gives back only frames it holds.
abbrev pub Promise : XskUmemPool × List ℕ → Type 0
Promise (p, held) =
    let (done, addr, p') = alloc_frame p 0 in
    ((length held ≡ 4096) × (done ≡ false))
    ⊎ ((length held < 4096)
        × (done ≡ true)
        × (occurrences addr held ≡ 0)
        × ((k : ℕ) × (k < 4096) × (addr ≡ k * 2048))
        × (get_frame_ptr addr ≡ some addr))

alloc-Promise :
    (p : XskUmemPool) (held q : List ℕ) → Owns (p, held) → free_frames p ≡ q → Promise (p, held)
alloc-Promise p held [] o e =
    inl (omega (arith, o.total, ap (length {A = ℕ}) e), (alloc_frame-empty p o.valid e).0)
alloc-Promise p held (x ∷ q) o e =
    let (done, out, rest) = alloc_frame-first p x q o.valid e in
    rw out (elim (occurrences-frames x 4096 0) [
      | inl never ↦
          absurd
            (present_once _ _ _ _ (o.once x) never (ap (occurrences x) e ∙ occurrences_self x q))
      | inr (one, (k, le, lt, at)) ↦ inr (
        omega (arith, o.total, ap (length {A = ℕ}) e),
        done,
        held_never _ _ _ _ (o.once x) one (ap (occurrences x) e ∙ occurrences_self x q),
        (k, omega arith, at),
        (get_frame_ptr-some_iff x (omega arith)).1 (inl (omega arith)),
      )
    ])

-- After any calls of a client that gives back only frames it holds: an allocation fails exactly when the client
-- holds all 4096 frames; otherwise it gives the address of a frame that the client does not hold, a multiple of
-- 2048 inside the buffer, for which `get_frame_ptr` answers a pointer.
pub run-Promise : (cs : List Call) → Promise (run (init, []) cs)
run-Promise cs =
    let s = run (init, []) cs in
    alloc-Promise s.0 s.1 (free_frames s.0) (run-keeps cs (init, []) init-Owns) refl
