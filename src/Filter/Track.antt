-- ===== src/Filter/Track.antt =====
-- The connection table over a history of packets, newest first, against the history itself.
use aether_plane.Base.{
  ℕ, suc, ◌≡◌, refl, ap, subst, ◌∙◌, Bool, true, false, List, [], ◌∷◌, Option, none, some, arith,
  ◌==◌, leb, if◌then◌else◌, length, u64, inl, inr, Bool-cases,
}
use aether_plane.Base.Text.{same_text, same_text-eq}
use aether_plane.Packet.{Packet, PacketMeta}
use aether_plane.Filter.{
  ConnectionState, new_connection, ConnTable, FilterEngine, make_flow_key, count_packet,
  update_entry, update_conntrack, active_connections,
}
use aether_plane.Packet.Flows.{same_flow, of_flow, sum_sizes, connections, same_text-same_flow}
use aether_plane.Filter.Key.{make_flow_key-SameFlow}

-- `update_conntrack` on each packet of the history, the oldest first.
unfoldable pub after : FilterEngine → List Packet → FilterEngine
after e [] = e
after e (p ∷ earlier) = update_conntrack (after e earlier) p

-- `conntrack_table_.find(key)`
abbrev pub find_entry : List ℕ → ConnTable → Option ConnectionState
find_entry key [] = none
find_entry key ((k, c) ∷ table) =
    let rest = find_entry key table in if same_text k key then some c else rest

-- What the table should hold for a connection of these packets.
abbrev pub summary : List Packet → Option ConnectionState
summary [] = none
summary (p ∷ q) = some (record {
  last_seen_ns = p.meta.timestamp_ns;
  packets_forwarded = u64 (length (p ∷ q));
  bytes_forwarded = u64 (sum_sizes (p ∷ q));
  is_established = leb 4 (length (p ∷ q));
})

abbrev or_new : Option ConnectionState → ConnectionState
or_new none = new_connection
or_new (some c) = c

find_entry-update_entry :
    (key k : List ℕ) (p : Packet) (t : ConnTable)
    → find_entry k (update_entry key p t) ≡ (
        if same_text key k then some (count_packet p (or_new (find_entry k t))) else find_entry k t)
unfolding update_entry
find_entry-update_entry key k p [] = refl
find_entry-update_entry key k p ((k', c) ∷ t) = elim (Bool-cases (same_text k' key)) [
  | inl e ↦
      let same : k' ≡ key = same_text-eq k' key e in
      rw e (
        subst
          (λ y. (if same_text k' k then some (count_packet p c) else find_entry k t) ≡ (
            if same_text y k
            then some (count_packet p (or_new (if same_text k' k then some c else find_entry k t)))
            else if same_text k' k
            then some c
            else find_entry k t))
          same (ground arith))
  | inr ne ↦ rw ne (elim (Bool-cases (same_text key k)) [
    | inl e ↦
        let apart : same_text k' k ≡ false =
          subst (λ y. same_text k' y ≡ false) (same_text-eq key k e) ne in
        rw apart (find_entry-update_entry key k p t)
    | inr e ↦ rw e (
        ap (λ r. if same_text k' k then some c else r)
          (find_entry-update_entry key k p t ∙ rw e refl))
  ])
]

summary-cons :
    (p : Packet) (q : List Packet) → some (count_packet p (or_new (summary q))) ≡ summary (p ∷ q)
unfolding count_packet
summary-cons p [] = ground arith
summary-cons p (x ∷ q) = ground arith

-- After any packets on an empty table, the entry under a packet's key is what the packets of its connection
-- (by addresses, ports and protocol) come to: none if there was no such packet, else the time of the last, their
-- number and bytes modulo 2 ^ 64, and established from the fourth on.
pub find_entry-after :
    (m : PacketMeta) (e : FilterEngine) (history : List Packet)
    → e.conntrack_table ≡ []
    → find_entry (make_flow_key m) (after e history).conntrack_table ≡ summary (of_flow m history)
unfolding after update_conntrack
find_entry-after m e [] h = ap (find_entry (make_flow_key m)) h
find_entry-after m e (p ∷ earlier) h =
    let ih = find_entry-after m e earlier h in
    find_entry-update_entry (make_flow_key p.meta) (make_flow_key m) p
      (after e earlier).conntrack_table
    ∙ rw ih (
        rw (same_text-same_flow make_flow_key make_flow_key-SameFlow p.meta m)
          (elim (Bool-cases (same_flow p.meta m)) [
            | inl s ↦ rw s (summary-cons p (of_flow m earlier))
            | inr s ↦ rw s refl
          ]))

abbrev is_none : Option ConnectionState → Bool
is_none none = true
is_none (some c) = false

length-update_entry :
    (key : List ℕ) (p : Packet) (t : ConnTable)
    → length (update_entry key p t)
      ≡ (if is_none (find_entry key t) then suc (length t) else length t)
unfolding update_entry
length-update_entry key p [] = refl
length-update_entry key p ((k, c) ∷ t) = elim (Bool-cases (same_text k key)) [
  | inl e ↦ rw e refl
  | inr e ↦ rw e (ground (arith, length-update_entry key p t))
]

is_none-summary : (q : List Packet) → is_none (summary q) ≡ (length q == 0)
is_none-summary [] = refl
is_none-summary (p ∷ q) = ground arith

-- After any packets on an empty table, `active_connections` is the number of packets that were the first of
-- their connection, that is, of distinct connections.
pub active_connections-after :
    (e : FilterEngine) (history : List Packet)
    → e.conntrack_table ≡ []
    → active_connections (after e history) ≡ connections history
unfolding after update_conntrack active_connections
active_connections-after e [] h = ap (length {A = List ℕ × ConnectionState}) h
active_connections-after e (p ∷ earlier) h =
    length-update_entry (make_flow_key p.meta) p (after e earlier).conntrack_table
    ∙ rw (find_entry-after p.meta e earlier h) (
        rw (is_none-summary (of_flow p.meta earlier))
          (rw (active_connections-after e earlier h) refl))
