-- ===== src/Xsk/Owners.antt =====
-- A client that gives back only frames it holds: every frame is free or held, once.
use aether_plane.Base.{
  ℕ, zero, suc, ◌+◌, ◌<◌, ◌≡◌, refl, ap, ◌∙◌, true, false, List, [], ◌∷◌, ◌++◌, Option, none, some,
  arith, if◌then◌else◌, length, get_elem?, length-append,
}
use aether_plane.Ring.{Ring}
use aether_plane.Ring
use aether_plane.Ring.Queue
use aether_plane.Ring.Inv.{IsValid, push-IsValid, pop-IsValid, init-IsValid}
use aether_plane.Ring.Refine.{contents, pop_refines}
use aether_plane.Xsk.{XskUmemPool, init, alloc_frame, free_frame}
use aether_plane.Xsk.Frames.{
  frames, occurrences, remove_at, occurrences-append, occurrences-cons, occurrences-remove_at,
  length-remove_at, push_frames-contents, push-contents,
}

-- The client asks for a frame, or gives back the `k`-th of those it holds.
pub data Call : Type 0 where
  alloc : Call
  give_back : ℕ → Call

unfoldable pub give_back_found : XskUmemPool → List ℕ → ℕ → Option ℕ → XskUmemPool × List ℕ
give_back_found p held k none = (p, held)
give_back_found p held k (some addr) = (free_frame p addr, remove_at k held)

-- The pool and the frames that the client holds.
unfoldable pub step : XskUmemPool × List ℕ → Call → XskUmemPool × List ℕ
step (p, held) alloc =
    let (done, addr, p') = alloc_frame p 0 in (p', if done then addr ∷ held else held)
step (p, held) (give_back k) = give_back_found p held k (get_elem? held k)

unfoldable pub run : XskUmemPool × List ℕ → List Call → XskUmemPool × List ℕ
run s [] = s
run s (c ∷ cs) = run (step s c) cs

-- The free frames, in the order in which they will be handed out.
abbrev pub free_frames : XskUmemPool → List ℕ
free_frames p = contents 0 12 p.free_frame_ring

pub record Owns (s : XskUmemPool × List ℕ) : Type 0 where
  pub valid : IsValid 12 s.0.free_frame_ring
  pub once :
      (a : ℕ) → occurrences a (free_frames s.0) + occurrences a s.1 ≡ occurrences a (frames 4096 0)
  pub total : length (free_frames s.0) + length s.1 ≡ 4096

length-frames : (n i : ℕ) → length (frames n i) ≡ n
length-frames zero i = refl
length-frames (suc n) i = ap suc (length-frames n (i + 1))

pub init-Owns : Owns (init, [])
unfolding init Ring.init
init-Owns =
    let r : Ring ℕ = Ring.init 4096 0 in
    let filled = push_frames-contents 4096 0 r (init-IsValid 12 (omega arith) 0) (omega arith) in
    record {
      valid = filled.0;
      once = λ a. omega (arith, ap (occurrences a) filled.1);
      total = omega (arith, ap (length {A = ℕ}) filled.1, length-frames 4096 0);
    }

-- What `alloc_frame` does to the free frames, by what they are.
pub alloc_frame-empty :
    (p : XskUmemPool)
    → IsValid 12 p.free_frame_ring
    → free_frames p ≡ []
    → ((alloc_frame p 0).0 ≡ false) × (free_frames (alloc_frame p 0).2 ≡ [])
unfolding alloc_frame Queue.pop
alloc_frame-empty p v e =
    let r = pop_refines 0 12 (omega arith) 0 v ∙ ap (λ q. Queue.pop 4096 q 0) e in
    (ap (λ a. a.0) r, ap (λ a. a.2) r)

pub alloc_frame-first :
    (p : XskUmemPool) (x : ℕ) (q : List ℕ)
    → IsValid 12 p.free_frame_ring
    → free_frames p ≡ x ∷ q
    → ((alloc_frame p 0).0 ≡ true)
      × ((alloc_frame p 0).1 ≡ x)
      × (free_frames (alloc_frame p 0).2 ≡ q)
unfolding alloc_frame Queue.pop
alloc_frame-first p x q v e =
    let r = pop_refines 0 12 (omega arith) 0 v ∙ ap (λ t. Queue.pop 4096 t 0) e in
    (ap (λ a. a.0) r, ap (λ a. a.1) r, ap (λ a. a.2) r)

alloc_frame-IsValid :
    (p : XskUmemPool)
    → IsValid 12 p.free_frame_ring
    → IsValid 12 (alloc_frame p 0).2.free_frame_ring
unfolding alloc_frame
alloc_frame-IsValid p v = pop-IsValid 12 (omega arith) 0 v

free_frame-IsValid :
    (p : XskUmemPool) (a : ℕ)
    → IsValid 12 p.free_frame_ring
    → IsValid 12 (free_frame p a).free_frame_ring
unfolding free_frame
free_frame-IsValid p a v = push-IsValid 12 (omega arith) a v

free_frame-append :
    (p : XskUmemPool) (a : ℕ)
    → IsValid 12 p.free_frame_ring
    → length (free_frames p) < 4096
    → free_frames (free_frame p a) ≡ free_frames p ++ (a ∷ [])
unfolding free_frame
free_frame-append p a v h = push-contents p.free_frame_ring a v h

alloc-Owns :
    (p : XskUmemPool) (held q : List ℕ)
    → Owns (p, held)
    → free_frames p ≡ q
    → Owns (step (p, held) alloc)
unfolding step
alloc-Owns p held [] o e =
    let (failed, still) = alloc_frame-empty p o.valid e in
    rw failed (record {
      valid = alloc_frame-IsValid p o.valid;
      once = λ a. omega (arith, o.once a, ap (occurrences a) e, ap (occurrences a) still);
      total = omega (arith, o.total, ap (length {A = ℕ}) e, ap (length {A = ℕ}) still);
    })
alloc-Owns p held (x ∷ q) o e =
    let (done, out, rest) = alloc_frame-first p x q o.valid e in
    rw done (
      rw out (record {
        valid = alloc_frame-IsValid p o.valid;
        once = λ a. ground (arith, o.once a, ap (occurrences a) e, ap (occurrences a) rest);
        total = omega (arith, o.total, ap (length {A = ℕ}) e, ap (length {A = ℕ}) rest);
      }))

-- Sums of occurrences: of an address that moves, that is free, and that is free and occurs once.
moved_once :
    (free held total one free' held' : ℕ)
    → free + held ≡ total
    → free' ≡ free + one
    → held ≡ one + held'
    → free' + held' ≡ total
moved_once free held total one free' held' h f g = omega arith

pub present_once :
    (free held total rest : ℕ) → free + held ≡ total → total ≡ 0 → free ≡ suc rest → ⊥
present_once free held total rest h t f = omega arith

pub held_never :
    (free held total rest : ℕ) → free + held ≡ total → total ≡ 1 → free ≡ suc rest → held ≡ 0
held_never free held total rest h t f = omega arith

give_back-Owns :
    (p : XskUmemPool) (held : List ℕ) (k : ℕ) (o : Option ℕ)
    → Owns (p, held)
    → get_elem? held k ≡ o
    → Owns (give_back_found p held k o)
unfolding give_back_found
give_back-Owns p held k none o e = o
give_back-Owns p held k (some x) o e =
    let shorter = length-remove_at k x held e in
    let more = free_frame-append p x o.valid (omega (arith, o.total, shorter)) in
    record {
      valid = free_frame-IsValid p x o.valid;
      once = λ a.
          moved_once _ _ _ _ _ _ (o.once a)
            (ap (occurrences a) more ∙ occurrences-append a (free_frames p) (x ∷ []))
            (occurrences-remove_at a k x held e ∙ occurrences-cons a x (remove_at k held));
      total = omega (
        arith,
        o.total,
        shorter,
        ap (length {A = ℕ}) more,
        length-append (free_frames p) (x ∷ []),
      );
    }

step-Owns : (s : XskUmemPool × List ℕ) (c : Call) → Owns s → Owns (step s c)
step-Owns (p, held) alloc o = alloc-Owns p held (free_frames p) o refl
step-Owns (p, held) (give_back k) o =
    unfold step in (give_back-Owns p held k (get_elem? held k) o refl)

pub run-keeps : (cs : List Call) (s : XskUmemPool × List ℕ) → Owns s → Owns (run s cs)
unfolding run
run-keeps [] s o = o
run-keeps (c ∷ cs) s o = run-keeps cs (step s c) (step-Owns s c o)
