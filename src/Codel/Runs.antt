-- ===== src/Codel/Runs.antt =====
-- Any sequence of calls of `enqueue` and `dequeue` on a new scheduler.
use aether_plane.Base.{
  ℕ, suc, ◌+◌, ◌^◌, ◌<◌, ◌≡◌, refl, ap, ◌∙◌, true, false, List, [], ◌∷◌, ◌++◌, Option, none, some,
  arith, length, length-append, u64,
}
use mathlib.Core.Option
use aether_plane.Base.Double.{Double}
use aether_plane.Packet.{Packet, size}
use aether_plane.Codel.{FqCodel, init, enqueue}
use aether_plane.Codel.Arrive.{
  init-IsSound, enqueue-IsSound, enqueue-total_drops, init-queued, enqueue-queued,
}
use aether_plane.Codel.Dequeue.{Answer, dequeue}
use aether_plane.Codel.Sound.{IsSound, rounds_left, queued}
use aether_plane.Codel.Ends.{Dequeued, dequeue-returns}

-- A call: of `enqueue`, or of `dequeue` at a time.
pub data Call : Type 0 where
  arrives : Packet → Call
  departs : ℕ → Call

-- The packets that arrived.
pub arrived : List Call → ℕ
arrived [] = 0
arrived (arrives p ∷ earlier) = suc (arrived earlier)
arrived (departs t ∷ earlier) = arrived earlier

abbrev pub HasSmall : List Call → Type 0
HasSmall [] = Unit {0}
HasSmall (arrives p ∷ earlier) = (size p < 2 ^ 30) × HasSmall earlier
HasSmall (departs t ∷ earlier) = HasSmall earlier

pub earlier_small : (c : Call) (earlier : List Call) → HasSmall (c ∷ earlier) → HasSmall earlier
earlier_small (arrives p) earlier h = h.1
earlier_small (departs t) earlier h = h

module _ (D : Double) where
  -- The state after calls, the last one first, and the packets that the calls of `dequeue` returned.
  -- Each `dequeue` is given the fuel that suffices for its state.
  pub record Run : Type 0 where
    pub state : FqCodel D
    pub sent : List Packet

  -- `out` is the packet that the caller passes by reference.
  abbrev pub sent_by : Run → Answer D → Run
  sent_by r (true, p, t) = record { state = t; sent = r.sent ++ (p ∷ []) }
  sent_by r (false, p, t) = record { state = t; sent = r.sent }

  abbrev pub call : Packet → Call → Run → Option Run
  call out (arrives p) r = some (record r { state = (enqueue D r.state p).1 })
  call out (departs now_ns) r =
      Option.map (sent_by r) (dequeue D (suc (rounds_left D r.state)) r.state out now_ns)

  abbrev pub and_call : Packet → Call → Option Run → Option Run
  and_call out c none = none
  and_call out c (some r) = call out c r

  unfoldable pub run : Packet → List Call → Option Run
  run out [] = some (record { state = init D; sent = [] })
  run out (c ∷ earlier) = and_call out c (run out earlier)

  abbrev pub Conserves : List Call → Run → Type 0
  Conserves calls r =
      IsSound D r.state
      × (u64 (queued D r.state + r.state.total_drops + length r.sent) ≡ u64 (arrived calls))

  sent_by-Conserves :
      (calls : List Call) (r : Run) (out : Packet)
      → Conserves calls r
      → (a : Answer D) → Dequeued D r.state out a
      → Conserves calls (sent_by r a)
  sent_by-Conserves calls r out h (true, p, t) (v, l, from) =
      (v, omega (arith, l.counted, h.1, length-append r.sent (p ∷ [])))
  sent_by-Conserves calls r out h (false, p, t) (v, l, same, idle) =
      (v, omega (arith, l.counted, h.1))

  pub enqueue-Conserves :
      (p : Packet) (earlier : List Call) (r : Run)
      → size p < 2 ^ 30
      → Conserves earlier r
      → Conserves (arrives p ∷ earlier) (record r { state = (enqueue D r.state p).1 })
  unfolding arrived
  enqueue-Conserves p earlier r small h = (
    enqueue-IsSound D r.state p h.0 small,
    omega (arith, h.1, enqueue-queued D r.state p, enqueue-total_drops D r.state p),
  )

  -- The answer of a `dequeue` with the fuel that suffices.
  abbrev pub DequeuedBy : Packet → ℕ → List Call → Run → Answer D → Type 0
  DequeuedBy out now_ns earlier r a =
      (dequeue D (suc (rounds_left D r.state)) r.state out now_ns ≡ some a)
      × Dequeued D r.state out a
      × Conserves (departs now_ns ∷ earlier) (sent_by r a)

  pub dequeue-Conserves :
      (out : Packet) (now_ns : ℕ) (earlier : List Call) (r : Run)
      → Conserves earlier r
      → (a : Answer D) × DequeuedBy out now_ns earlier r a
  unfolding arrived
  dequeue-Conserves out now_ns earlier r h =
      let (a, e, done) =
        dequeue-returns D (suc (rounds_left D r.state)) r.state out now_ns h.0 (omega arith) in
      (a, (e, done, sent_by-Conserves earlier r out h a done))

  abbrev pub new_run : Run
  new_run = record { state = init D; sent = [] }

  pub init-Conserves : Conserves [] new_run
  unfolding arrived
  init-Conserves = (init-IsSound D, omega (arith, init-queued D))

  call-Conserves :
      (out : Packet) (c : Call) (earlier : List Call) (r : Run)
      → HasSmall (c ∷ earlier)
      → Conserves earlier r
      → (r' : Run) × (call out c r ≡ some r') × Conserves (c ∷ earlier) r'
  call-Conserves out (arrives p) earlier r small h =
      (record r { state = (enqueue D r.state p).1 }, refl, enqueue-Conserves p earlier r small.0 h)
  call-Conserves out (departs now_ns) earlier r small h =
      let (a, (e, done, h')) = dequeue-Conserves out now_ns earlier r h in
      (sent_by r a, ap (Option.map (sent_by r)) e, h')

  -- Any calls of `enqueue` and `dequeue` on a new scheduler come to an end, if every packet is below 2 ^ 30
  -- bytes and each `dequeue` may take one round more than the measure of its state: the loops run out of
  -- rounds in none. Afterwards the packets in the flows, the drops counted and the packets returned add up to
  -- the packets that arrived, modulo 2 ^ 64, and the scheduler is sound: each deficit is at most one quantum
  -- or a debt of at most 2 ^ 30, the lists hold flows below 1024, and each flow with packets is in a list.
  pub run-Conserves :
      (out : Packet) (calls : List Call)
      → HasSmall calls
      → (r : Run) × (run out calls ≡ some r) × Conserves calls r
  unfolding run
  run-Conserves out [] small = (new_run, refl, init-Conserves)
  run-Conserves out (c ∷ earlier) small =
      let (r, e, h) = run-Conserves out earlier (earlier_small c earlier small) in
      let (r', e', h') = call-Conserves out c earlier r small h in
      (r', ap (and_call out c) e ∙ e', h')
