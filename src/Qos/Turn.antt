-- ===== src/Qos/Turn.antt =====
-- One turn of the round robin: a queue sends its front packet or is passed over.
use aether_plane.Base.{
  ℕ, ◌≡◌, ◌≢◌, refl, sym, subst, ◌∙◌, ◌⊎◌, update_ne, Bool, true, false, List, [], ◌∷◌, update,
  add32, sleb32, u32, inl, inr, Bool-cases,
}
use mathlib.Core.Bool.{false≢true}
use aether_plane.Base.Double.{Double}
use aether_plane.Packet.{Packet, size}
use aether_plane.Qos.{Scheduler, take_front, serve}

-- The raised deficit covers the packet.
abbrev pub covers : ℕ → ℕ → Packet → Bool
covers deficit weight p = sleb32 (u32 (size p)) (add32 deficit weight)

-- A queue that cannot send in this round: empty, or with a front packet that is not covered.
abbrev pub Holds : ℕ → ℕ → List Packet → Type 0
Holds deficit weight [] = Unit {0}
Holds deficit weight (p ∷ q) = covers deficit weight p ≡ false

module _ (D : Double) where
  abbrev pub Blocked : Scheduler D → ℕ → Type 0
  Blocked s i = Holds (s.deficits i) (s.weights i) (s.queues i)

  abbrev pub Answer : Type 0
  Answer = Bool × Packet × Scheduler D

  -- The packet `p` at the front of queue `j` goes out, and nothing else changes place.
  pub record Sends (s : Scheduler D) (r : Answer) (j : ℕ) : Type 0 where
    pub packet : Packet
    pub rest : List Packet
    pub front : s.queues j ≡ packet ∷ rest
    pub sent : r.0 ≡ true
    pub out_packet : r.1 ≡ packet
    pub queues : r.2.queues ≡ update s.queues j rest

  -- Nothing goes out, and no queue changes.
  pub record Idle (s : Scheduler D) (r : Answer) (out : Packet) : Type 0 where
    pub kept : r.0 ≡ false
    pub out_same : r.1 ≡ out
    pub queues : r.2.queues ≡ s.queues

  -- What a turn at queue `i` leaves alone.
  pub record OnlyAt (s t : Scheduler D) (i : ℕ) : Type 0 where
    pub weights : t.weights ≡ s.weights
    pub deficits : (k : ℕ) → k ≢ i → t.deficits k ≡ s.deficits k

  abbrev pub Passed : Scheduler D → ℕ → Answer → Packet → Type 0
  Passed s i r out = Idle s r out × OnlyAt s r.2 i × Blocked s i

  covered-not-Blocked :
      (s : Scheduler D) (i : ℕ) (p : Packet) (rest : List Packet)
      → s.queues i ≡ p ∷ rest
      → covers (s.deficits i) (s.weights i) p ≡ true
      → ¬ Blocked s i
  covered-not-Blocked s i p rest e c h =
      false≢true (sym (subst (Holds (s.deficits i) (s.weights i)) e h) ∙ c)

  pub serve_cases :
      (s : Scheduler D) (i : ℕ) (q : List Packet) (out : Packet)
      → s.queues i ≡ q
      → (Sends s (serve D s i q out) i × ¬ Blocked s i) ⊎ Passed s i (serve D s i q out) out
  unfolding serve take_front
  serve_cases s i [] out e = inr (
    record { kept = refl; out_same = refl; queues = refl },
    record { weights = refl; deficits = λ k ne. update_ne s.deficits i k 0 ne },
    subst (Holds (s.deficits i) (s.weights i)) (sym e) tt,
  )
  serve_cases s i (p ∷ rest) out e =
      let d = add32 (s.deficits i) (s.weights i) in
      elim (Bool-cases (covers (s.deficits i) (s.weights i) p)) [
        | inl c ↦ rw c (
            inl (
              record {
                packet = p;
                rest = rest;
                front = e;
                sent = refl;
                out_packet = refl;
                queues = refl;
              },
              covered-not-Blocked s i p rest e c,
            ))
        | inr c ↦ rw c (
            inr (
              record { kept = refl; out_same = refl; queues = refl },
              record { weights = refl; deficits = λ k ne. update_ne s.deficits i k d ne },
              subst (Holds (s.deficits i) (s.weights i)) (sym e) c,
            ))
      ]
