-- ===== src/Session/Queue/Acknowledge.antt =====
-- internal/session/queue.go: `Ack` against the invariant of a session.
use orb_mq.Base.{
  ℕ, lookup, delete, nat_eq, Bool-cases, Option-cases, ◌⊎◌, Distinct-delete, ◌≡◌, ◌≢◌, arith, inl,
  inr, ap, sym, ◌∙◌, some, subst, length-delete-le,
}
use orb_mq.Session.Limits.{Limits}
use orb_mq.Session.State.{Entry, State, Cell}
use orb_mq.Session.Queue.{find_entry, inflight_entry, acknowledge, ack}
use orb_mq.Session.Queue.Entries.{
  assigned, Ordered-remove_entry, current-remove_entry, length-remove_entry,
  total_bytes-remove_entry, Entries-remove_entry, find_entry-assigned, assigned-remove_entry,
  find_entry-ref,
}
use orb_mq.Session.Queue.Invariant.{IsSession}

pub inflight_entry_inv :
    (id : ℕ) (s : State) (m : Entry)
    → inflight_entry id s ≡ some m
    → (ref : ℕ) × (lookup id s.inflight ≡ some ref) × (find_entry ref s.entries ≡ some m)
unfolding inflight_entry
inflight_entry_inv id s m h = elim (Option-cases (lookup id s.inflight)) [
  | inl e ↦ cc (rw (e, inflight_entry) at h)
  | inr (ref, e) ↦ (ref, e, rw (e, inflight_entry) at h)
]

-- The entry that an identifier in flight leads to is in the queue and has the identifier.
pub inflight_entry_in_queue :
    (l : Limits) (s : State) (id : ℕ) (m : Entry)
    → IsSession l s
    → inflight_entry id s ≡ some m
    → (find_entry m.ref s.entries ≡ some m) × (m.packet_id ≡ id) × (id ≢ 0)
inflight_entry_in_queue l s id m v h =
    let (ref, e, f) = inflight_entry_inv id s m h in
    let (k, g, p, z) =
      find_entry-assigned s.epoch s.next_ref id ref s.entries v.entries_ok
        (subst (λ i. lookup id i ≡ some ref) v.in_flight e) in
    let q = find_entry-ref ref s.entries m f in ground (arith, f, g, p, z, q)

pub acknowledge-IsSession :
    (c : Cell) (id : ℕ) (m : Entry)
    → IsSession c.limits c.state
    → find_entry m.ref c.state.entries ≡ some m
    → m.packet_id ≡ id
    → id ≢ 0
    → IsSession c.limits (acknowledge id m c).state
acknowledge-IsSession c id m v f p z =
    let s = c.state in
    let taken =
      assigned-remove_entry s.epoch s.next_ref id m.ref s.entries m v.entries_ok v.ids f p z in
    record {
      messages = omega (arith, v.messages, length-remove_entry m.ref s.entries m f);
      bytes = omega (arith, v.bytes, total_bytes-remove_entry m.ref s.entries m f);
      messages_bound = omega (arith, v.messages_bound);
      bytes_bound = omega (arith, v.bytes_bound);
      entries_ok = Entries-remove_entry s.epoch s.next_ref m.ref s.entries v.entries_ok;
      in_flight = ap (delete id) v.in_flight ∙ sym taken;
      ids = rw taken (Distinct-delete id (assigned s.entries) v.ids);
      active = ground (arith, v.active, current-remove_entry s.epoch m.ref s.entries m f);
      ordered = Ordered-remove_entry s.epoch 0 m.ref s.entries v.ordered;
      window = rw taken (omega (arith, v.window, length-delete-le id (assigned s.entries)));
      epoch_range = v.epoch_range;
      last_id = v.last_id;
    }

pub ack_cases :
    (id : ℕ) (c : Cell)
    → (ack id c ≡ c)
      ⊎ ((m : Entry) × (inflight_entry id c.state ≡ some m) × (ack id c ≡ acknowledge id m c))
unfolding ack
ack_cases id c = elim (Option-cases (inflight_entry id c.state)) [
  | inl e ↦ inl (ground arith)
  | inr (m, e) ↦ elim (Bool-cases c.state.deleted) [
    | inl d ↦ inl (ground arith)
    | inr d ↦ inr (m, e, ground arith)
  ]
]

-- An acknowledgement keeps the invariant, also one that names no message in flight.
pub ack-IsSession :
    (id : ℕ) (c : Cell) → IsSession c.limits c.state → IsSession c.limits (ack id c).state
ack-IsSession id c v = elim (ack_cases id c) [
  | inl e ↦ rw e v
  | inr (m, e, q) ↦
      let (f, p, z) = inflight_entry_in_queue c.limits c.state id m v e in
      rw q (acknowledge-IsSession c id m v f p z)
]
