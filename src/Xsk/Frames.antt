-- ===== src/Xsk/Frames.antt =====
-- The frames in order, and how often an address occurs in a list.
use mathlib.Core.Option.{some_inj}
use aether_plane.Base.{
  sym, ℕ, zero, suc, ◌+◌, ◌*◌, ◌≤◌, ◌<◌, ◌≡◌, refl, ap, ◌∙◌, ◌⊎◌, inl, inr, false, List, [], ◌∷◌,
  ◌++◌, some, arith, ◌==◌, if◌then◌else◌, length, get_elem?, Bool-cases, append-nil, append_assoc,
  length-append,
}
use aether_plane.Ring.{Ring}
use aether_plane.Ring
use aether_plane.Ring.Queue
use aether_plane.Ring.Inv.{IsValid, push-IsValid}
use aether_plane.Ring.Refine.{contents, push_refines}
use aether_plane.Xsk.{push_frames, frame_size}

abbrev pub frames : ℕ → ℕ → List ℕ
frames zero i = []
frames (suc n) i = (i * frame_size) ∷ frames n (i + 1)

abbrev pub occurrences : ℕ → List ℕ → ℕ
occurrences a [] = 0
occurrences a (x ∷ xs) = let rest = occurrences a xs in if x == a then suc rest else rest

abbrev pub remove_at : ℕ → List ℕ → List ℕ
remove_at k [] = []
remove_at zero (x ∷ xs) = xs
remove_at (suc k) (x ∷ xs) = x ∷ remove_at k xs

pub occurrences-append :
    (a : ℕ) (xs ys : List ℕ) → occurrences a (xs ++ ys) ≡ occurrences a xs + occurrences a ys
occurrences-append a [] ys = omega arith
occurrences-append a (x ∷ xs) ys = ground (arith, occurrences-append a xs ys)

pub occurrences-cons :
    (a x : ℕ) (xs : List ℕ) → occurrences a (x ∷ xs) ≡ occurrences a (x ∷ []) + occurrences a xs
occurrences-cons a x xs = ground arith

pub occurrences_self : (a : ℕ) (xs : List ℕ) → occurrences a (a ∷ xs) ≡ suc (occurrences a xs)
occurrences_self a xs = ground arith

pub occurrences-remove_at :
    (a k x : ℕ) (xs : List ℕ)
    → get_elem? xs k ≡ some x
    → occurrences a xs ≡ occurrences a (x ∷ remove_at k xs)
occurrences-remove_at a k x [] h = absurd cc
occurrences-remove_at a zero x (y ∷ xs) h = ap (λ t. occurrences a (t ∷ xs)) (some_inj.0 h)
occurrences-remove_at a (suc k) x (y ∷ xs) h = ground (arith, occurrences-remove_at a k x xs h)

pub length-remove_at :
    (k x : ℕ) (xs : List ℕ) → get_elem? xs k ≡ some x → length xs ≡ suc (length (remove_at k xs))
length-remove_at k x [] h = absurd cc
length-remove_at zero x (y ∷ xs) h = refl
length-remove_at (suc k) x (y ∷ xs) h = ap suc (length-remove_at k x xs h)

-- Each address occurs at most once, and then as the start of a frame.
pub occurrences-frames :
    (a n i : ℕ)
    → (occurrences a (frames n i) ≡ 0)
      ⊎ ((occurrences a (frames n i) ≡ 1)
          × ((k : ℕ) × (i ≤ k) × (k < i + n) × (a ≡ k * frame_size)))
occurrences-frames a zero i = inl refl
occurrences-frames a (suc n) i = elim (occurrences-frames a n (i + 1)) [
  | inl none_after ↦ elim (Bool-cases (i * frame_size == a)) [
    | inl e ↦ inr (rw e (ap suc none_after), (i, omega arith, omega arith, ground arith))
    | inr e ↦ inl (rw e none_after)
  ]
  | inr (once, (k, le, lt, at)) ↦
      let apart : (i * frame_size == a) ≡ false = ground arith in
      inr (rw apart once, (k, omega arith, omega arith, at))
]

push-append : (q : List ℕ) (x : ℕ) → length q < 4096 → (Queue.push 4096 q x).1 ≡ q ++ (x ∷ [])
unfolding Queue.push
push-append q x h = ground arith

-- A push with room appends.
pub push-contents :
    (r : Ring ℕ) (x : ℕ)
    → IsValid 12 r
    → length (contents 0 12 r) < 4096
    → contents 0 12 (Ring.push 4096 r x).1 ≡ contents 0 12 r ++ (x ∷ [])
push-contents r x v room =
    ap (λ a. a.1) (push_refines 0 12 (omega arith) x v) ∙ push-append (contents 0 12 r) x room

-- Pushing frames into a ring with room for them appends them to its contents.
pub push_frames-contents :
    (n i : ℕ) (r : Ring ℕ)
    → IsValid 12 r
    → length (contents 0 12 r) + n ≤ 4096
    → IsValid 12 (push_frames n i r)
      × (contents 0 12 (push_frames n i r) ≡ contents 0 12 r ++ frames n i)
unfolding push_frames
push_frames-contents zero i r v h = (v, sym (append-nil (contents 0 12 r)))
push_frames-contents (suc n) i r v h =
    let r' = (Ring.push 4096 r (i * frame_size)).1 in
    let one : contents 0 12 r' ≡ contents 0 12 r ++ (i * frame_size ∷ []) =
      push-contents r (i * frame_size) v (omega arith) in
    let room : length (contents 0 12 r') + n ≤ 4096 =
      omega (
        arith,
        h,
        ap (length {A = ℕ}) one,
        length-append (contents 0 12 r) (i * frame_size ∷ []),
      ) in
    let rest =
      push_frames-contents n (i + 1) r' (push-IsValid 12 (omega arith) (i * frame_size) v) room in
    (
      rest.0,
      rest.1
          ∙ ap (λ q. q ++ frames n (i + 1)) one
          ∙ append_assoc (contents 0 12 r) (i * frame_size ∷ []) (frames n (i + 1)),
    )
