-- ===== src/Ring/Refine.antt =====
-- A valid ring behaves as the bounded queue of the items that it holds.
use aether_plane.Base.{
  ℕ, suc, ◌+◌, ◌-◌, ◌%◌, ◌^◌, ◌≤◌, ◌<◌, ◌≡◌, refl, sym, ap, ap₂, ◌∙◌, List, [], ◌∷◌, ◌++◌, arith,
  length, get_or, set, add64, sub64, u64, get_or_irrel,
}
use native.Mathlib.Decide.{ℕ_discrete}
use aether_plane.Ring.{Ring, slot, push, pop, run}
use aether_plane.Ring.Capacity.{slot-mod, mod-u64, pow-le}
use aether_plane.Ring.Window.{window, length-window, window_cong, window-set, window_of_pos}
use aether_plane.Ring.Queue
use aether_plane.Ring.Queue.{Call, put, take, Reply, pushed, popped}
use aether_plane.Ring.Inv.{count, IsValid, slot-lt, push-IsValid, pop-IsValid}

module _ {ℓ} {A : Type ℓ} (blank : A) (k : ℕ) where
  -- What a ring holds, oldest first.
  abbrev pub contents : Ring A → List A
  contents r = window blank (2 ^ k) r.buffer r.head (count r)

  pub length-contents : (r : Ring A) → length (contents r) ≡ count r
  length-contents r = length-window blank (2 ^ k) r.buffer r.head (count r)

module _ {ℓ} {A : Type ℓ} (blank : A) (k : ℕ) (small : k ≤ 63) where
  -- The tail's slot lies `count` steps past the head's.
  pub tail_slot : {r : Ring A} → IsValid k r → slot (2 ^ k) r.tail ≡ (r.head + count r) % 2 ^ k
  tail_slot {r} v =
      slot-mod k r.tail small ∙ ap (λ t. t % 2 ^ k) wrapped ∙ mod-u64 k (r.head + count r) small
    where
      wrapped : r.tail ≡ u64 (r.head + count r)
      wrapped = omega arith

  pushed_contents :
      {r : Ring A} (item : A)
      → IsValid k r
      → count r < 2 ^ k
      → contents blank k
          (record r { buffer = set r.buffer (slot (2 ^ k) r.tail) item; tail = add64 r.tail 1 })
        ≡ contents blank k r ++ (item ∷ [])
  pushed_contents {r} item v room =
      ap (window blank (2 ^ k) (set r.buffer (slot (2 ^ k) r.tail) item) r.head) one_more
      ∙ window-set blank (2 ^ k) r.buffer item r.head (count r) (slot (2 ^ k) r.tail) v.slots room
          (tail_slot v)
    where
      one_more : sub64 (add64 r.tail 1) r.head ≡ suc (count r)
      one_more = omega (arith, pow-le k small)

  pub popped_contents :
      {r : Ring A}
      → IsValid k r
      → 0 < count r
      → contents blank k r
        ≡ get_or r.buffer (slot (2 ^ k) r.head) blank
          ∷ contents blank k (record r { head = add64 r.head 1 })
  popped_contents {r} v pos =
      window_of_pos blank (2 ^ k) r.buffer r.head (count r) pos
      ∙ ap₂ ◌∷◌ (ap (λ i. get_or r.buffer i blank) (sym (slot-mod k r.head small))) (
          ap (window blank (2 ^ k) r.buffer (r.head + 1)) one_less
          ∙ window_cong blank (2 ^ k) r.buffer (r.head + 1) (add64 r.head 1)
              (sub64 r.tail (add64 r.head 1)) (sym (mod-u64 k (r.head + 1) small)))
    where
      one_less : count r - 1 ≡ sub64 r.tail (add64 r.head 1)
      one_less = omega arith

  -- `push` answers as the queue's `push`, and leaves the ring holding the queue's items.
  pub push_refines :
      {r : Ring A} (item : A)
      → IsValid k r
      → let (done, r') = push (2 ^ k) r item in
        (done, contents blank k r') ≡ Queue.push (2 ^ k) (contents blank k r) item
  unfolding push Queue.push
  push_refines {r} item v = ground (arith, length-contents blank k r, pushed_contents item v)

  -- `pop` answers as the queue's `pop`, with its oldest item, and leaves the ring holding the rest.
  pub pop_refines :
      {r : Ring A} (item : A)
      → IsValid k r
      → let (done, out, r') = pop (2 ^ k) r item in
        (done, out, contents blank k r') ≡ Queue.pop (2 ^ k) (contents blank k r) item
  unfolding pop Queue.pop
  pop_refines {r} item v = elim (ℕ_discrete (count r) 0) [
    | yes empty ↦ ground (arith, ap (window blank (2 ^ k) r.buffer r.head) empty)
    | no filled ↦ ground (
      arith,
      popped_contents v (omega arith),
      get_or_irrel r.buffer (slot (2 ^ k) r.head) item blank,
      slot-lt k r.head small,
    )
  ]

  -- No sequence of calls tells a valid ring from the bounded queue of its items.
  pub run_refines :
      (calls : List (Call A)) {r : Ring A}
      → IsValid k r
      → run (2 ^ k) r calls ≡ Queue.run (2 ^ k) (contents blank k r) calls
  unfolding run Queue.run
  run_refines [] v = refl
  run_refines (put item ∷ calls) v =
      rw (run_refines calls (push-IsValid k small item v), ← push_refines item v)
  run_refines (take old ∷ calls) v =
      rw (run_refines calls (pop-IsValid k small old v), ← pop_refines old v)
