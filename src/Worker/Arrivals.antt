-- ===== src/Worker/Arrivals.antt =====
-- One access of the dispatcher of include/core/worker_pool.hpp keeps what every core holds.
use native.Mathlib.Decide.{ℕ_discrete}
use aether_plane.Base.{
  ℕ, ◌≡◌, ◌≢◌, refl, sym, ap, ◌∙◌, List, true, false, arith, leb, if◌then◌else◌, sub64, inl, inr,
  Bool-cases, subst, ◌==◌, update_ne, ltb,
}
use aether_plane.Packet.{Packet}
use aether_plane.Ring.{Ring}
use aether_plane.Ring.Threads.{
  Producer, no_push, tail_loaded, not_full, item_written, Shared, produce,
}
use aether_plane.Ring.Coherent.{IsCoherent}
use aether_plane.Ring.Interleave.{produce-IsCoherent}
use aether_plane.Netdev.{no_packet}
use aether_plane.Rss.{dispatch_core}
use aether_plane.Worker.{thread}
use aether_plane.Worker.Threads.{System, lane, push_access, dispatch}
use aether_plane.Worker.Lane.{Holds, few}
use aether_plane.Worker.Moves.{AllHold}

pub eq_self : (n : ℕ) → (n == n) ≡ true
eq_self n = ground arith

pub eq_other : (n m : ℕ) → n ≢ m → (n == m) ≡ false
eq_other n m ne = ground arith

-- An access of `push` changes neither the consumer nor what was popped.
produce_frame :
    (pkt : Packet) (l : Shared Packet) (p : Producer Packet)
    → record l {
      ring = (produce 1024 pkt l p).ring;
      producer = (produce 1024 pkt l p).producer;
      pushed = (produce 1024 pkt l p).pushed;
    }
      ≡ produce 1024 pkt l p
unfolding produce
produce_frame pkt l no_push = refl
produce_frame pkt l (tail_loaded item tail) =
    elim (Bool-cases (leb 1024 (sub64 tail l.ring.head))) [
      | inl full ↦ rw full refl
      | inr room ↦ rw room refl
    ]
produce_frame pkt l (not_full item tail) = refl
produce_frame pkt l (item_written item tail) = refl

push_access-AllHold :
    (s : System) (i : ℕ) (pkt : Packet) (p : Producer Packet)
    → (lane s i).producer ≡ p
    → ((j : ℕ) → j ≢ i → (lane s j).producer ≡ no_push)
    → AllHold s
    → AllHold (push_access s i pkt p)
push_access-AllHold s i pkt p here elsewhere all j =
    let l = produce 1024 pkt (lane s i) p in
    let w = thread s.pool j in
    elim (ℕ_discrete j i) [
      | yes e ↦
          subst
            (λ k. Holds (lane (push_access s i pkt p) k) (thread s.pool k).point (s.pool.metrics k))
            (sym e)
            (rw (eq_self i) (record {
              coherent =
                  subst (IsCoherent no_packet 10 few) (sym (produce_frame pkt (lane s i) p))
                    (produce-IsCoherent no_packet 10 few pkt (lane s i) p (all i).coherent here);
              packets = (all i).packets;
              bytes = (all i).bytes;
            }))
      | no ne ↦
          let h = all j in
          record {
            coherent =
                subst
                  (λ (q : Ring Packet × Producer Packet × List Packet).
                    IsCoherent no_packet 10 few
                      (record (lane s j) { ring = q.0; producer = q.1; pushed = q.2 }))
                  (λ a. (
                    sym (update_ne s.pool.worker_rings i j l.ring ne) a,
                    (elsewhere j ne
                          ∙ sym (ap (λ b. if b then l.producer else no_push) (eq_other j i ne)))
                        a,
                    sym (update_ne s.pushed i j l.pushed ne) a,
                  ))
                  h.coherent;
            packets = h.packets;
            bytes = h.bytes;
          }
    ]

-- An access of a call of `push` that has begun.
under_way-AllHold :
    (s : System) (pkt : Packet) (p : Producer Packet)
    → s.producer ≡ p
    → AllHold s
    → AllHold (push_access s s.target_core pkt p)
under_way-AllHold s pkt p e all =
    push_access-AllHold s s.target_core pkt p (rw (eq_self s.target_core) e)
      (λ j ne. rw (eq_other j s.target_core ne) refl) all

pub dispatch-AllHold :
    (s : System) (pkt : Packet) (p : Producer Packet)
    → s.producer ≡ p
    → AllHold s
    → AllHold (dispatch s pkt p)
unfolding dispatch
dispatch-AllHold s pkt no_push e all =
    let i = dispatch_core s.pool.rss_dispatcher pkt in
    let none : (j : ℕ) → (lane s j).producer ≡ no_push =
      λ j. elim (Bool-cases (j == s.target_core)) [ inl b ↦ rw b e | inr b ↦ rw b refl ] in
    elim (Bool-cases (ltb i s.pool.num_workers)) [
      | inl b ↦ rw b (push_access-AllHold s i pkt no_push (none i) (λ j ne. none j) all)
      | inr b ↦ rw b all
    ]
dispatch-AllHold s pkt (tail_loaded item tail) e all =
    under_way-AllHold s pkt (tail_loaded item tail) e all
dispatch-AllHold s pkt (not_full item tail) e all =
    under_way-AllHold s pkt (not_full item tail) e all
dispatch-AllHold s pkt (item_written item tail) e all =
    under_way-AllHold s pkt (item_written item tail) e all
