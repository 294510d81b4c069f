-- ===== src/Xdp/Verdict.antt =====
-- The first program that does not pass decides, on the packet as the programs before it left it.
use aether_plane.Base.{ℕ, ◌≡◌, ◌≢◌, refl, ap, List, [], ◌∷◌, ◌++◌, add64}
use aether_plane.Packet.{Packet}
use aether_plane.Xdp.{
  XdpAction, xdp_aborted, xdp_drop, xdp_pass, xdp_tx, xdp_redirect, XdpMeta, XdpProgram,
  XdpHookEngine, Outcome, mark_drop, on_action, run_programs, process_packet,
}

-- The programs pass the packet and the metadata on, from the first pair to the second.
pub data Passes : List (List ℕ × XdpProgram) → Packet × XdpMeta → Packet × XdpMeta → Type 0 where
  done : {s : Packet × XdpMeta} → Passes [] s s
  next :
      {name : List ℕ} {prog : XdpProgram} {programs : List (List ℕ × XdpProgram)}
      {pkt pkt' : Packet} {meta meta' : XdpMeta} {t : Packet × XdpMeta}
      → prog pkt meta ≡ (xdp_pass, pkt', meta')
      → Passes programs (pkt', meta') t
      → Passes ((name, prog) ∷ programs) (pkt, meta) t

-- The counters after a verdict: drops and aborts count as dropped, redirects as redirected.
abbrev pub counted : XdpAction → XdpHookEngine → XdpHookEngine
counted xdp_drop e = record e { total_dropped = add64 e.total_dropped 1 }
counted xdp_aborted e = record e { total_dropped = add64 e.total_dropped 1 }
counted xdp_redirect e = record e { total_redirected = add64 e.total_redirected 1 }
counted xdp_tx e = e
counted xdp_pass e = e

abbrev pub marked : XdpAction → Packet → Packet
marked xdp_drop pkt = mark_drop pkt
marked xdp_aborted pkt = pkt
marked xdp_redirect pkt = pkt
marked xdp_tx pkt = pkt
marked xdp_pass pkt = pkt

-- The programs before the deciding one pass; it answers something else. Or all pass.
pub data Decides (e : XdpHookEngine)
    : List (List ℕ × XdpProgram) → Packet × XdpMeta → Outcome → Type 0 where
  all_pass :
      {programs : List (List ℕ × XdpProgram)} {s : Packet × XdpMeta} {pkt : Packet} {meta : XdpMeta}
      → Passes programs s (pkt, meta)
      → Decides e programs s (xdp_pass, pkt, meta, e)
  by_program :
      (before : List (List ℕ × XdpProgram)) (name : List ℕ) (prog : XdpProgram)
      (after : List (List ℕ × XdpProgram)) (pkt pkt' : Packet) (meta meta' : XdpMeta)
      (action : XdpAction) {programs : List (List ℕ × XdpProgram)} {s : Packet × XdpMeta}
      → programs ≡ before ++ ((name, prog) ∷ after)
      → Passes before s (pkt, meta)
      → prog pkt meta ≡ (action, pkt', meta')
      → action ≢ xdp_pass
      → Decides e programs s (action, marked action pkt', meta', counted action e)

Decides-next :
    {e : XdpHookEngine} {name : List ℕ} {prog : XdpProgram} {programs : List (List ℕ × XdpProgram)}
    {pkt pkt' : Packet} {meta meta' : XdpMeta} {o : Outcome}
    → prog pkt meta ≡ (xdp_pass, pkt', meta')
    → Decides e programs (pkt', meta') o
    → Decides e ((name, prog) ∷ programs) (pkt, meta) o
Decides-next h (all_pass p) = all_pass (next h p)
Decides-next {name = name} {prog = prog} h
      (by_program before n q after pkt1 pkt2 meta1 meta2 action split p answer other) =
    by_program ((name, prog) ∷ before) n q after pkt1 pkt2 meta1 meta2 action
      (ap (λ t. (name, prog) ∷ t) split) (next h p) answer other

on_action-Decides :
    (e : XdpHookEngine) (name : List ℕ) (prog : XdpProgram) (programs : List (List ℕ × XdpProgram))
    (pkt pkt' : Packet) (meta meta' : XdpMeta) (action : XdpAction) (rest : Outcome)
    → prog pkt meta ≡ (action, pkt', meta')
    → Decides e programs (pkt', meta') rest
    → Decides e ((name, prog) ∷ programs) (pkt, meta) (on_action action pkt' meta' e rest)
unfolding on_action
on_action-Decides e name prog programs pkt pkt' meta meta' xdp_drop rest h d =
    by_program [] name prog programs pkt pkt' meta meta' xdp_drop refl done h (λ k. cc)
on_action-Decides e name prog programs pkt pkt' meta meta' xdp_aborted rest h d =
    by_program [] name prog programs pkt pkt' meta meta' xdp_aborted refl done h (λ k. cc)
on_action-Decides e name prog programs pkt pkt' meta meta' xdp_redirect rest h d =
    by_program [] name prog programs pkt pkt' meta meta' xdp_redirect refl done h (λ k. cc)
on_action-Decides e name prog programs pkt pkt' meta meta' xdp_tx rest h d =
    by_program [] name prog programs pkt pkt' meta meta' xdp_tx refl done h (λ k. cc)
on_action-Decides e name prog programs pkt pkt' meta meta' xdp_pass rest h d = Decides-next h d

run_programs-Decides :
    (programs : List (List ℕ × XdpProgram)) (pkt : Packet) (meta : XdpMeta) (e : XdpHookEngine)
    → Decides e programs (pkt, meta) (run_programs programs pkt meta e)
unfolding run_programs
run_programs-Decides [] pkt meta e = all_pass done
run_programs-Decides ((name, prog) ∷ programs) pkt meta e =
    let (action, pkt', meta') = prog pkt meta in
    on_action-Decides e name prog programs pkt pkt' meta meta' action
      (run_programs programs pkt' meta' e) refl (run_programs-Decides programs pkt' meta' e)

-- `process_packet` counts the packet as processed and answers by the first program that does not pass it, on the
-- packet and the metadata as the programs before left them: a drop marks the packet, a drop or an abort counts
-- as dropped, a redirect as redirected, and the programs after are not run. When all programs pass, or there
-- is none, it passes.
pub process_packet-Decides :
    (e : XdpHookEngine) (pkt : Packet) (meta : XdpMeta)
    → Decides
        (record e { total_processed = add64 e.total_processed 1 })
        (e.attached_programs)
        (pkt, meta)
        (process_packet e pkt meta)
unfolding process_packet
process_packet-Decides e pkt meta =
    run_programs-Decides e.attached_programs pkt meta
      (record e { total_processed = add64 e.total_processed 1 })
