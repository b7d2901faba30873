-- ===== src/Session/Queue/Invariant.antt =====
-- internal/session/queue.go: the invariant of a session, with `Admit` and `BeginDelivery`.
use orb_mq.Base.{
  ℕ, ◌+◌, ◌≤◌, ◌<◌, ◌^◌, Bytes, nat_eq, Bool-cases, Option-cases, Distinct, true, false, List, [],
  ◌∷◌, ◌++◌, none, ◌≡◌, refl, arith, inl, inr, sym, ◌∙◌, some, length, length-append,
}
use Prim.Native.Nat.{max}
use orb_mq.Session.Limits.{Limits}
use orb_mq.Session.State.{Snapshot, Entry, State, Cell, next64}
use orb_mq.Session.Queue.{
  refuse, session_limit, global_limit, admitted, dropped, DropReason, is_queued_publish,
  drop_reason, enqueue, admit, new_entry, begin_delivery, find_entry,
}
use orb_mq.Session.Queue.Entries.{assigned, phase, current, total_bytes, Ordered, IsEntry, Entries}

-- A session that is not deleted, under validated limits: its counters are those of its queue and
-- within its limits, the identifiers in flight are those of the entries that were sent, no two the
-- same, the entries that were sent stand first, those of this epoch before the others, and they
-- are no more than the window allows. The epoch is a uint64, the last identifier a uint16.
pub record IsSession (l : Limits) (s : State) : Type 0 where
  pub messages : s.stats.pending_messages ≡ length s.entries
  pub bytes : s.stats.pending_bytes ≡ total_bytes s.entries
  pub messages_bound : s.stats.pending_messages ≤ l.max_pending_messages_per_session
  pub bytes_bound : s.stats.pending_bytes ≤ l.max_pending_bytes_per_session
  pub entries_ok : Entries s.epoch s.next_ref s.entries
  pub in_flight : s.inflight ≡ assigned s.entries
  pub ids : Distinct (assigned s.entries)
  pub active : s.active_inflight ≡ current s.epoch s.entries
  pub ordered : Ordered s.epoch 0 s.entries
  pub window : length (assigned s.entries) ≤ l.max_inflight_messages_per_session
  pub epoch_range : s.epoch < 2 ^ 64
  pub last_id : s.next_packet_id < 65536

-- Appending an entry that was never sent.
module _ (epoch limit : ℕ) (e : Entry) (fresh : e.packet_id ≡ 0) (unsent : e.last_epoch ≡ 0)
    (here : e.ref ≡ limit) where
  assigned-append_fresh : (es : List Entry) → assigned (es ++ e ∷ []) ≡ assigned es
  unfolding assigned
  assigned-append_fresh [] = ground arith
  assigned-append_fresh (x ∷ es) = ground (arith, assigned-append_fresh es)

  current-append_fresh : (es : List Entry) → current epoch (es ++ e ∷ []) ≡ current epoch es
  unfolding current
  current-append_fresh [] = ground arith
  current-append_fresh (x ∷ es) = ground (arith, current-append_fresh es)

  total_bytes-append_fresh :
      (es : List Entry) → total_bytes (es ++ e ∷ []) ≡ total_bytes es + length e.packet
  unfolding total_bytes
  total_bytes-append_fresh [] = omega arith
  total_bytes-append_fresh (x ∷ es) = omega (arith, total_bytes-append_fresh es)

  Ordered-append_fresh :
      (low : ℕ) (es : List Entry)
      → low ≤ 2
      → Ordered epoch low es
      → Ordered epoch low (es ++ e ∷ [])
  Ordered-append_fresh low [] h o = (ground arith, tt)
  Ordered-append_fresh low (x ∷ es) h o =
      (o.0, Ordered-append_fresh (phase epoch x) es (ground arith) o.1)

  find_entry-append_fresh :
      (r : ℕ) (es : List Entry)
      → r < limit
      → find_entry r es ≡ none
      → find_entry r (es ++ e ∷ []) ≡ none
  unfolding find_entry
  find_entry-append_fresh r [] lt h = ground arith
  find_entry-append_fresh r (x ∷ es) lt h = ground (arith, find_entry-append_fresh r es lt)

  Entries-append_fresh :
      is_queued_publish e.packet e.packet_id_offset ≡ true
      → (es : List Entry) → Entries epoch limit es
      → Entries epoch (limit + 1) (es ++ e ∷ [])
  Entries-append_fresh q [] h = (
    record { not_ahead = omega arith; id_range = omega arith; unsent = ground arith; queued = q },
    omega arith,
    unfold find_entry in refl,
    tt,
  )
  Entries-append_fresh q (x ∷ es) h =
      (h.0, omega arith, find_entry-append_fresh x.ref es h.1 h.2, Entries-append_fresh q es h.3)

pub drop_reason-none :
    (l : Limits) (stats totals : Snapshot) (n : ℕ)
    → drop_reason l stats totals n ≡ none
    → (stats.pending_messages < l.max_pending_messages_per_session)
      × (stats.pending_bytes + n ≤ l.max_pending_bytes_per_session)
      × (totals.pending_messages < l.max_pending_messages_global)
      × (totals.pending_bytes + n ≤ l.max_pending_bytes_global)
unfolding drop_reason
drop_reason-none l stats totals n h = ground arith

pub admit_room :
    (packet : Bytes) (offset now : ℕ) (c : Cell)
    → is_queued_publish packet offset ≡ true
    → c.state.deleted ≡ false
    → drop_reason c.limits c.state.stats c.totals (length packet) ≡ none
    → admit packet offset now c ≡ (admitted, enqueue c packet offset now)
unfolding admit
admit_room packet offset now c q d e = ground arith

pub admit_full :
    (packet : Bytes) (offset now : ℕ) (c : Cell) (reason : DropReason)
    → is_queued_publish packet offset ≡ true
    → c.state.deleted ≡ false
    → drop_reason c.limits c.state.stats c.totals (length packet) ≡ some reason
    → admit packet offset now c ≡ (dropped reason, refuse c reason)
unfolding admit
admit_full packet offset now c reason q d e = ground arith

pub enqueue-IsSession :
    (c : Cell) (packet : Bytes) (offset now : ℕ)
    → is_queued_publish packet offset ≡ true
    → IsSession c.limits c.state
    → drop_reason c.limits c.state.stats c.totals (length packet) ≡ none
    → IsSession c.limits (enqueue c packet offset now).state
enqueue-IsSession c packet offset now q v d =
    let s = c.state in
    let e = new_entry s packet offset now in
    let room = drop_reason-none c.limits s.stats c.totals (length packet) d in
    let same = assigned-append_fresh s.epoch s.next_ref e refl refl refl s.entries in
    record {
      messages = omega (arith, v.messages, length-append s.entries (e ∷ []));
      bytes =
          omega (
            arith,
            v.bytes,
            total_bytes-append_fresh s.epoch s.next_ref e refl refl refl s.entries,
          );
      messages_bound = omega (arith, room);
      bytes_bound = omega (arith, room);
      entries_ok =
          Entries-append_fresh s.epoch s.next_ref e refl refl refl q s.entries v.entries_ok;
      in_flight = v.in_flight ∙ sym same;
      ids = rw same v.ids;
      active = v.active ∙ sym (current-append_fresh s.epoch s.next_ref e refl refl refl s.entries);
      ordered =
          Ordered-append_fresh s.epoch s.next_ref e refl refl refl 0 s.entries (omega arith)
            v.ordered;
      window = rw same v.window;
      epoch_range = v.epoch_range;
      last_id = v.last_id;
    }

refuse-IsSession :
    (l : Limits) (s : State) (t : Snapshot)
    → t.pending_messages ≡ s.stats.pending_messages
    → t.pending_bytes ≡ s.stats.pending_bytes
    → IsSession l s
    → IsSession l (record s { stats = t })
refuse-IsSession l s t m b v = record {
  messages = m ∙ v.messages;
  bytes = b ∙ v.bytes;
  messages_bound = omega (arith, v.messages_bound, m);
  bytes_bound = omega (arith, v.bytes_bound, b);
  entries_ok = v.entries_ok;
  in_flight = v.in_flight;
  ids = v.ids;
  active = v.active;
  ordered = v.ordered;
  window = v.window;
  epoch_range = v.epoch_range;
  last_id = v.last_id;
}

pub drop-IsSession :
    (reason : DropReason) (c : Cell)
    → IsSession c.limits c.state
    → IsSession c.limits (refuse c reason).state
drop-IsSession session_limit c v = refuse-IsSession c.limits c.state _ refl refl v
drop-IsSession global_limit c v = refuse-IsSession c.limits c.state _ refl refl v

-- Admission keeps the invariant, whatever it answers.
pub admit-IsSession :
    (packet : Bytes) (offset now : ℕ) (c : Cell)
    → IsSession c.limits c.state
    → IsSession c.limits (admit packet offset now c).1.state
admit-IsSession packet offset now c v = elim (Bool-cases (is_queued_publish packet offset)) [
  | inr q ↦ unfold admit in rw q v
  | inl q ↦ elim (Bool-cases c.state.deleted) [
    | inl d ↦ unfold admit in simp (q, d) v
    | inr d ↦ elim (Option-cases (drop_reason c.limits c.state.stats c.totals (length packet))) [
      | inl e ↦
          rw (admit_room packet offset now c q d e) (enqueue-IsSession c packet offset now q v e)
      | inr (reason, e) ↦
          rw (admit_full packet offset now c reason q d e) (drop-IsSession reason c v)
    ]
  ]
]

module _ (epoch later : ℕ) (ahead : epoch < later) where
  Entries-later : (limit : ℕ) (es : List Entry) → Entries epoch limit es → Entries later limit es
  Entries-later limit [] h = tt
  Entries-later limit (e ∷ es) h = (
    record {
      not_ahead = omega arith;
      id_range = h.0.id_range;
      unsent = h.0.unsent;
      queued = h.0.queued;
    },
    h.1,
    h.2,
    Entries-later limit es h.3,
  )

  phase_later : (e : Entry) → IsEntry epoch e → phase later e ≡ max 1 (phase epoch e)
  phase_later e h = ground arith

  current_later : (limit : ℕ) (es : List Entry) → Entries epoch limit es → current later es ≡ 0
  unfolding current
  current_later limit [] h = refl
  current_later limit (e ∷ es) h = ground (arith, phase_later e h.0, current_later limit es h.3)

  Ordered-later :
      (limit low low' : ℕ) (es : List Entry)
      → low' ≤ max 1 low
      → Entries epoch limit es
      → Ordered epoch low es
      → Ordered later low' es
  Ordered-later limit low low' [] le h o = tt
  Ordered-later limit low low' (e ∷ es) le h o =
      let p = phase_later e h.0 in
      (
        omega (arith, p, o.0),
        Ordered-later limit (phase epoch e) (phase later e) es (omega (arith, p)) h.3 o.1,
      )

-- A new connection lifetime keeps the invariant, and has sent nothing yet.
pub begin_delivery-IsSession :
    (l : Limits) (s : State)
    → s.epoch + 1 < 2 ^ 64
    → IsSession l s
    → IsSession l (begin_delivery s).1
unfolding begin_delivery
begin_delivery-IsSession l s lt v =
    let e : next64 s.epoch ≡ s.epoch + 1 = omega arith in
    let ahead : s.epoch < next64 s.epoch = omega (arith, e) in
    record {
      messages = v.messages;
      bytes = v.bytes;
      messages_bound = v.messages_bound;
      bytes_bound = v.bytes_bound;
      entries_ok = Entries-later s.epoch (next64 s.epoch) ahead s.next_ref s.entries v.entries_ok;
      in_flight = v.in_flight;
      ids = v.ids;
      active = sym (current_later s.epoch (next64 s.epoch) ahead s.next_ref s.entries v.entries_ok);
      ordered =
          Ordered-later s.epoch (next64 s.epoch) ahead s.next_ref 0 0 s.entries (omega arith)
            v.entries_ok v.ordered;
      window = v.window;
      epoch_range = omega arith;
      last_id = v.last_id;
    }
