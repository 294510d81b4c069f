-- ===== src/Ring/Interleave.antt =====
-- Every interleaving of a producer and a consumer delivers the items in order.
use aether_plane.Base.{
  ℕ, suc, ◌^◌, ◌≤◌, ◌<◌, ◌≡◌, refl, sym, ap, ◌∙◌, List, [], ◌∷◌, ◌++◌, append_assoc, arith, leb,
  ◌==◌, length-set, get_or, get_or-set_self, set, add64, sub64, inl, inr, Bool-cases, subst,
}
use aether_plane.Ring.{Ring, slot, init}
use aether_plane.Ring.Capacity.{pow-le}
use aether_plane.Ring.Window.{window, window_of_suc}
use aether_plane.Ring.Inv.{count, IsValid, slot-lt, init-IsValid}
use aether_plane.Ring.Refine.{contents, tail_slot, popped_contents}
use aether_plane.Ring.Threads.{
  Producer, no_push, tail_loaded, not_full, item_written, Consumer, no_pop, head_loaded, not_empty,
  item_read, Shared, Move, produces, consumes, produce, consume, move, interleave, start,
}
use aether_plane.Ring.Coherent.{
  Producing, Consuming, IsCoherent, written, written-contents, written-Consuming, raised-Consuming,
  raised-Producing,
}

module _ {ℓ} {A : Type ℓ} (blank : A) (k : ℕ) (small : k ≤ 63) where
  -- The item in the slot at the tail becomes the last one.
  raised-contents :
      (r : Ring A) (item : A)
      → IsValid k r
      → count r < 2 ^ k
      → get_or r.buffer (slot (2 ^ k) r.tail) blank ≡ item
      → contents blank k (record r { tail = add64 r.tail 1 }) ≡ contents blank k r ++ (item ∷ [])
  raised-contents r item v room at =
      ap (window blank (2 ^ k) r.buffer r.head) one_more
      ∙ window_of_suc blank (2 ^ k) r.buffer r.head (count r)
      ∙ ap (λ x. contents blank k r ++ (x ∷ []))
          (ap (λ i. get_or r.buffer i blank) (sym (tail_slot blank k small v)) ∙ at)
    where
      one_more : sub64 (add64 r.tail 1) r.head ≡ suc (count r)
      one_more = omega (arith, pow-le k small)

  write-IsCoherent :
      (s : Shared A) (item : A)
      → IsCoherent blank k small s
      → count s.ring < 2 ^ k
      → IsCoherent blank k small (record s {
        ring = written blank k small s.ring item;
        producer = item_written item s.ring.tail;
      })
  write-IsCoherent s item c room =
      let r = s.ring in
      let v = c.valid in
      let len = length-set r.buffer (slot (2 ^ k) r.tail) item in
      record {
        valid = record {
          head_word = v.head_word;
          tail_word = v.tail_word;
          within = v.within;
          slots = len ∙ v.slots;
        };
        delivered =
            c.delivered
            ∙ ap (λ q. s.popped ++ q) (sym (written-contents blank k small r item v room));
        producing = (
          refl,
          room,
          get_or-set_self r.buffer (slot (2 ^ k) r.tail) item blank
              (omega (arith, slot-lt k r.tail small, v.slots)),
        );
        consuming = written-Consuming blank k small r item s.consumer v room c.consuming;
      }

  store-IsCoherent :
      (s : Shared A) (item : A)
      → IsCoherent blank k small s
      → count s.ring < 2 ^ k
      → get_or s.ring.buffer (slot (2 ^ k) s.ring.tail) blank ≡ item
      → IsCoherent blank k small (record s {
        ring = record (s.ring) { tail = add64 s.ring.tail 1 };
        producer = no_push;
        pushed = s.pushed ++ (item ∷ []);
      })
  store-IsCoherent s item c room at =
      let r = s.ring in
      let v = c.valid in
      record {
        valid = record {
          head_word = v.head_word;
          tail_word = omega arith;
          within = omega (arith, pow-le k small, v.head_word, v.tail_word);
          slots = v.slots;
        };
        delivered =
            ap (λ q. q ++ (item ∷ [])) c.delivered
            ∙ append_assoc s.popped (contents blank k r) (item ∷ [])
            ∙ ap (λ q. s.popped ++ q) (sym (raised-contents r item v room at));
        producing = tt;
        consuming =
            raised-Consuming blank k small r (add64 r.tail 1) s.consumer
              (λ h. omega (arith, pow-le k small, v.head_word, v.tail_word)) c.consuming;
      }

  pub produce-IsCoherent :
      (next : A) (s : Shared A) (p : Producer A)
      → IsCoherent blank k small s
      → s.producer ≡ p
      → IsCoherent blank k small (produce (2 ^ k) next s p)
  unfolding produce
  produce-IsCoherent next s no_push c e = record {
    valid = c.valid;
    delivered = c.delivered;
    producing = (refl, tt);
    consuming = c.consuming;
  }
  produce-IsCoherent next s (tail_loaded item tail) c e =
      let (same, u) = subst (Producing blank k small s.ring) e c.producing in
      elim (Bool-cases (leb (2 ^ k) (sub64 tail s.ring.head))) [
        | inl full ↦ rw full (record {
          valid = c.valid;
          delivered = c.delivered;
          producing = tt;
          consuming = c.consuming;
        })
        | inr room ↦ rw room (record {
          valid = c.valid;
          delivered = c.delivered;
          producing = (same, ground (arith, same), tt);
          consuming = c.consuming;
        })
      ]
  produce-IsCoherent next s (not_full item tail) c e =
      let (same, room, u) = subst (Producing blank k small s.ring) e c.producing in
      subst
        (λ t. IsCoherent blank k small (record s {
          ring = record (s.ring) { buffer = set s.ring.buffer (slot (2 ^ k) t) item };
          producer = item_written item t;
        }))
        (sym same) (write-IsCoherent s item c room)
  produce-IsCoherent next s (item_written item tail) c e =
      let (same, room, at) = subst (Producing blank k small s.ring) e c.producing in
      subst
        (λ t. IsCoherent blank k small (record s {
          ring = record (s.ring) { tail = add64 t 1 };
          producer = no_push;
          pushed = s.pushed ++ (item ∷ []);
        }))
        (sym same)
        (store-IsCoherent s item c room
          (ap (λ t. get_or s.ring.buffer (slot (2 ^ k) t) blank) (sym same) ∙ at))

  take-IsCoherent :
      (s : Shared A) (item : A)
      → IsCoherent blank k small s
      → 0 < count s.ring
      → get_or s.ring.buffer (slot (2 ^ k) s.ring.head) blank ≡ item
      → IsCoherent blank k small (record s {
        ring = record (s.ring) { head = add64 s.ring.head 1 };
        consumer = no_pop;
        popped = s.popped ++ (item ∷ []);
      })
  take-IsCoherent s item c pos at =
      let r = s.ring in
      let v = c.valid in
      let r' = record r { head = add64 r.head 1 } in
      record {
        valid = record {
          head_word = omega arith;
          tail_word = v.tail_word;
          within = omega (arith, v.within, v.head_word, v.tail_word);
          slots = v.slots;
        };
        delivered =
            c.delivered
            ∙ ap (λ q. s.popped ++ q)
                (popped_contents blank k small v pos ∙ ap (λ x. x ∷ contents blank k r') at)
            ∙ sym (append_assoc s.popped (item ∷ []) (contents blank k r'));
        producing =
            raised-Producing blank k small r (add64 r.head 1) s.producer
              (λ h. omega (arith, v.head_word, v.tail_word)) c.producing;
        consuming = tt;
      }

  pub consume-IsCoherent :
      (s : Shared A) (p : Consumer A)
      → IsCoherent blank k small s
      → s.consumer ≡ p
      → IsCoherent blank k small (consume (2 ^ k) blank s p)
  unfolding consume
  consume-IsCoherent s no_pop c e = record {
    valid = c.valid;
    delivered = c.delivered;
    producing = c.producing;
    consuming = (refl, tt);
  }
  consume-IsCoherent s (head_loaded head) c e =
      let (same, u) = subst (Consuming blank k small s.ring) e c.consuming in
      elim (Bool-cases (head == s.ring.tail)) [
        | inl empty ↦ rw empty (record {
          valid = c.valid;
          delivered = c.delivered;
          producing = c.producing;
          consuming = tt;
        })
        | inr some_item ↦ rw some_item (record {
          valid = c.valid;
          delivered = c.delivered;
          producing = c.producing;
          consuming = (same, ground (arith, same, c.valid.head_word, c.valid.tail_word), tt);
        })
      ]
  consume-IsCoherent s (not_empty head) c e =
      let (same, pos, u) = subst (Consuming blank k small s.ring) e c.consuming in
      record {
        valid = c.valid;
        delivered = c.delivered;
        producing = c.producing;
        consuming = (same, pos, refl);
      }
  consume-IsCoherent s (item_read head item) c e =
      let (same, pos, at) = subst (Consuming blank k small s.ring) e c.consuming in
      subst
        (λ h. IsCoherent blank k small (record s {
          ring = record (s.ring) { head = add64 h 1 };
          consumer = no_pop;
          popped = s.popped ++ (item ∷ []);
        }))
        (sym same)
        (take-IsCoherent s item c pos
          (ap (λ h. get_or s.ring.buffer (slot (2 ^ k) h) blank) (sym same) ∙ at))

  interleave-IsCoherent :
      (ms : List (Move A)) (s : Shared A)
      → IsCoherent blank k small s
      → IsCoherent blank k small (interleave (2 ^ k) blank s ms)
  unfolding interleave move
  interleave-IsCoherent [] s c = c
  interleave-IsCoherent (produces item ∷ ms) s c =
      interleave-IsCoherent ms (produce (2 ^ k) item s s.producer)
        (produce-IsCoherent item s s.producer c refl)
  interleave-IsCoherent (consumes ∷ ms) s c =
      interleave-IsCoherent ms (consume (2 ^ k) blank s s.consumer)
        (consume-IsCoherent s s.consumer c refl)

  start-IsCoherent : IsCoherent blank k small (start (2 ^ k) blank)
  unfolding start init
  start-IsCoherent = record {
    valid = init-IsValid k small blank;
    delivered = refl;
    producing = tt;
    consuming = tt;
  }

  -- In every interleaving of the accesses of one producer and one consumer of a new ring of `2 ^ k` slots, with `k`
  -- at most 63: the items of the pushes that returned true are the items of the pops that returned true
  -- followed by those in the ring, in the same order; the ring holds at most `2 ^ k` items; an item that the
  -- consumer has read is still the one in its slot when it moves the head; and the producer writes only into a ring with room.
  pub interleave-start-IsCoherent :
      (ms : List (Move A))
      → IsCoherent blank k small (interleave (2 ^ k) blank (start (2 ^ k) blank) ms)
  interleave-start-IsCoherent ms = interleave-IsCoherent ms (start (2 ^ k) blank) start-IsCoherent
