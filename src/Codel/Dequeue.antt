-- ===== src/Codel/Dequeue.antt =====
-- `dequeue` of `FQCoDelScheduler`: the loop over a list of flows, for the new flows and then for the old ones.
use aether_plane.Base.{
  ℕ, zero, suc, Bool, true, false, ◌&&◌, List, [], ◌∷◌, ◌++◌, Option, none, some, leb,
  if◌then◌else◌, update, u32, add32, sub32, sleb32, add64, sub64,
}
use aether_plane.Base.Double.{Double}
use aether_plane.Packet.{Packet, size}
use aether_plane.Codel.{FlowQueue, FqCodel, quantum, control_law, codel_should_drop}

-- The list that `process_flow_list` is called with.
pub data Which : Type 0 where
  new_list old_list : Which

module _ (D : Double) where
  open D use {F, lit, less}

  abbrev pub list_of : Which → FqCodel D → List ℕ
  list_of new_list s = s.new_flows
  list_of old_list s = s.old_flows

  -- `flow_list.pop_front()`, where `rest` is what remains
  abbrev pub set_list : Which → List ℕ → FqCodel D → FqCodel D
  set_list new_list rest s = record s { new_flows = rest }
  set_list old_list rest s = record s { old_flows = rest }

  -- A round of the loop ends the call or goes on.
  pub data Round : Type 0 where
    returns : Bool → Packet → FqCodel D → Round
    goes_on : FqCodel D → Round

  -- The flow without its front packet, which is paid for.
  abbrev pub without_front : FlowQueue → Packet → List Packet → FlowQueue
  without_front flow candidate packets = record flow {
    packets = packets;
    total_bytes = sub64 flow.total_bytes (size candidate);
    deficit = sub32 flow.deficit (u32 (size candidate));
  }

  -- The drop state of the flow after a drop.
  unfoldable pub dropping_flow : FlowQueue → ℕ → FlowQueue
  dropping_flow flow now_ns =
      let c = flow.codel in
      let c' =
        if c.dropping
        then if leb c.drop_next_ns now_ns
          then record c {
            count = add32 c.count 1;
            drop_next_ns = control_law D c.drop_next_ns (add32 c.count 1);
          }
          else c
        else record c { dropping = true; count = 1; drop_next_ns = control_law D now_ns 1 } in
      record flow { drops = add64 flow.drops 1; codel = c' }

  -- The bookkeeping of a drop on flow `idx`.
  unfoldable pub drop_candidate : FqCodel D → ℕ → ℕ → FqCodel D
  drop_candidate s idx now_ns = record s {
    total_drops = add64 s.total_drops 1;
    bufferbloat_active = true;
    flows = update s.flows idx (dropping_flow (s.flows idx) now_ns);
  }

  -- The end of a drop phase, when the delay is short again.
  unfoldable pub leave_dropping : FqCodel D → ℕ → FqCodel D
  leave_dropping s idx =
      let flow = s.flows idx in
      if flow.codel.dropping && less s.current_delay_ms (lit 5 1)
      then record s {
        flows =
            update s.flows idx (record flow { codel = record (flow.codel) { dropping = false } });
        bufferbloat_active = false;
      }
      else s

  -- After the check: the candidate is dropped or returned.
  unfoldable pub after_check : Bool → FqCodel D → ℕ → Packet → ℕ → Round
  after_check true s idx candidate now_ns = goes_on (drop_candidate s idx now_ns)
  after_check false s idx candidate now_ns = returns true candidate (leave_dropping s idx)

  -- The candidate leaves the queue and is checked.
  unfoldable pub serve_candidate : FqCodel D → ℕ → Packet → List Packet → ℕ → Round
  serve_candidate s idx candidate packets now_ns =
      let s1 = record s {
        flows = update s.flows idx (without_front (s.flows idx) candidate packets);
      } in
      let (drop, s2) = codel_should_drop D s1 idx candidate now_ns in
      after_check drop s2 idx candidate now_ns

  -- `flow.deficit += QUANTUM; flow_list.pop_front(); old_flows_.push_back(idx);`
  unfoldable pub to_old : Which → FqCodel D → ℕ → List ℕ → FqCodel D
  to_old w s idx rest =
      let flow = s.flows idx in
      let s' = set_list w rest s in
      record s' {
        flows = update s.flows idx (record flow { deficit = add32 flow.deficit quantum });
        old_flows = s'.old_flows ++ (idx ∷ []);
      }

  -- One round at the flow `idx`, whose packets are given.
  unfoldable pub round_at : Which → FqCodel D → ℕ → List ℕ → List Packet → ℕ → Round
  round_at w s idx rest [] now_ns = goes_on (set_list w rest s)
  round_at w s idx rest (candidate ∷ packets) now_ns =
      if sleb32 (s.flows idx).deficit 0
      then goes_on (to_old w s idx rest)
      else serve_candidate s idx candidate packets now_ns

  -- One round of `process_flow_list`. `out` is the reference parameter.
  unfoldable pub round : Which → FqCodel D → List ℕ → Packet → ℕ → Round
  round w s [] out now_ns = returns false out s
  round w s (idx ∷ rest) out now_ns = round_at w s idx rest (s.flows idx).packets now_ns

  abbrev pub Answer : Type 0
  Answer = Bool × Packet × FqCodel D

  abbrev pub end_or : (FqCodel D → Option Answer) → Round → Option Answer
  end_or again (returns found pkt s) = some (found, pkt, s)
  end_or again (goes_on s) = again s

  -- `process_flow_list` on fuel; `none` means that it ran out.
  unfoldable pub process_flow_list : ℕ → Which → FqCodel D → Packet → ℕ → Option Answer
  process_flow_list zero w s out now_ns = none
  process_flow_list (suc fuel) w s out now_ns =
      end_or (λ s'. process_flow_list fuel w s' out now_ns) (round w s (list_of w s) out now_ns)

  -- The old flows, unless a packet was found among the new ones.
  abbrev pub or_old : ℕ → ℕ → Answer → Option Answer
  or_old fuel now_ns (true, pkt, s) = some (true, pkt, s)
  or_old fuel now_ns (false, pkt, s) = process_flow_list fuel old_list s pkt now_ns

  abbrev pub then_old : ℕ → ℕ → Option Answer → Option Answer
  then_old fuel now_ns none = none
  then_old fuel now_ns (some r) = or_old fuel now_ns r

  unfoldable pub dequeue : ℕ → FqCodel D → Packet → ℕ → Option Answer
  dequeue fuel s out now_ns = then_old fuel now_ns (process_flow_list fuel new_list s out now_ns)
