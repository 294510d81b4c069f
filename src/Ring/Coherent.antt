-- ===== src/Ring/Coherent.antt =====
-- The two threads of a ring never disturb each other: an invariant of their interleavings.
use aether_plane.Base.{
  ℕ, ◌-◌, ◌%◌, ◌^◌, ◌≤◌, ◌<◌, ◌≡◌, ◌≢◌, sym, ap, ◌∙◌, ◌++◌, arith, get_or, get_or-set_ne, set,
  sub64,
}
use aether_plane.Ring.{Ring, slot}
use aether_plane.Ring.Capacity.{slot-mod}
use aether_plane.Ring.Window.{window-set_past, steps-mod-ne}
use aether_plane.Ring.Inv.{count, IsValid}
use aether_plane.Ring.Refine.{contents, tail_slot}
use aether_plane.Ring.Threads.{
  Producer, no_push, tail_loaded, not_full, item_written, Consumer, no_pop, head_loaded, not_empty,
  item_read, Shared,
}

module _ {ℓ} {A : Type ℓ} (blank : A) (k : ℕ) (small : k ≤ 63) where
  -- What the producer knows of the ring.
  abbrev pub Producing : Ring A → Producer A → Type ℓ
  Producing r no_push = Unit {ℓ}
  Producing r (tail_loaded item tail) = (tail ≡ r.tail) × Unit {ℓ}
  Producing r (not_full item tail) = (tail ≡ r.tail) × (count r < 2 ^ k) × Unit {ℓ}
  Producing r (item_written item tail) =
      (tail ≡ r.tail) × (count r < 2 ^ k) × (get_or r.buffer (slot (2 ^ k) tail) blank ≡ item)

  -- What the consumer knows of it.
  abbrev pub Consuming : Ring A → Consumer A → Type ℓ
  Consuming r no_pop = Unit {ℓ}
  Consuming r (head_loaded head) = (head ≡ r.head) × Unit {ℓ}
  Consuming r (not_empty head) = (head ≡ r.head) × (0 < count r) × Unit {ℓ}
  Consuming r (item_read head item) =
      (head ≡ r.head) × (0 < count r) × (get_or r.buffer (slot (2 ^ k) head) blank ≡ item)

  pub record IsCoherent (s : Shared A) : Type ℓ where
    pub valid : IsValid k s.ring
    pub delivered : s.pushed ≡ s.popped ++ contents blank k s.ring
    pub producing : Producing s.ring s.producer
    pub consuming : Consuming s.ring s.consumer

  -- The slot that the producer writes is not the one that the consumer reads.
  slots-ne :
      (r : Ring A)
      → IsValid k r
      → 0 < count r
      → count r < 2 ^ k
      → slot (2 ^ k) r.tail ≢ slot (2 ^ k) r.head
  slots-ne r v pos room e =
      let d = sub64 r.tail r.head - 1 in
      steps-mod-ne (2 ^ k) r.head d (omega arith) (
        sym (slot-mod k r.head small)
        ∙ sym e
        ∙ tail_slot blank k small v
        ∙ ap (λ j. j % 2 ^ k) (omega arith))

  -- A write to the slot at the tail of a ring with room.
  abbrev pub written : Ring A → A → Ring A
  written r item = record r { buffer = set r.buffer (slot (2 ^ k) r.tail) item }

  pub written-contents :
      (r : Ring A) (item : A)
      → IsValid k r
      → count r < 2 ^ k
      → contents blank k (written r item) ≡ contents blank k r
  written-contents r item v room =
      window-set_past blank (2 ^ k) r.buffer item r.head (count r) 0 (slot (2 ^ k) r.tail)
        (omega arith) (tail_slot blank k small v ∙ ap (λ j. j % 2 ^ k) (omega arith))

  pub written-Consuming :
      (r : Ring A) (item : A) (c : Consumer A)
      → IsValid k r
      → count r < 2 ^ k
      → Consuming r c
      → Consuming (written r item) c
  written-Consuming r item no_pop v room h = h
  written-Consuming r item (head_loaded head) v room h = h
  written-Consuming r item (not_empty head) v room h = h
  written-Consuming r item (item_read head x) v room (same, pos, read) = (
    same,
    pos,
    get_or-set_ne r.buffer (slot (2 ^ k) r.tail) (slot (2 ^ k) head) item blank
          (λ e. slots-ne r v pos room (e ∙ ap (slot (2 ^ k)) same))
        ∙ read,
  )

  -- The consumer's knowledge when the tail moves on, and the producer's when the head does.
  pub raised-Consuming :
      (r : Ring A) (tail : ℕ) (c : Consumer A)
      → (0 < count r → 0 < count (record r { tail = tail }))
      → Consuming r c
      → Consuming (record r { tail = tail }) c
  raised-Consuming r tail no_pop more h = h
  raised-Consuming r tail (head_loaded head) more h = h
  raised-Consuming r tail (not_empty head) more h = (h.0, more h.1, h.2)
  raised-Consuming r tail (item_read head x) more h = (h.0, more h.1, h.2)

  pub raised-Producing :
      (r : Ring A) (head : ℕ) (p : Producer A)
      → (count r < 2 ^ k → count (record r { head = head }) < 2 ^ k)
      → Producing r p
      → Producing (record r { head = head }) p
  raised-Producing r head no_push more h = h
  raised-Producing r head (tail_loaded item tail) more h = h
  raised-Producing r head (not_full item tail) more h = (h.0, more h.1, h.2)
  raised-Producing r head (item_written item tail) more h = (h.0, more h.1, h.2)
