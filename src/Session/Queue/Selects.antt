-- ===== src/Session/Queue/Selects.antt =====
-- internal/session/queue.go: `Next` against the invariant of a session.
use orb_mq.Base.{
  ℕ, ◌+◌, ◌≤◌, ◌<◌, Map, lookup, insert, nat_eq, Bool-cases, Option-cases, Distinct,
  Distinct-insert, true, false, ◌==◌, ◌||◌, not, leb, Bool, if◌then◌else◌, List, [], ◌∷◌, ◌++◌,
  none, ◌≡◌, refl, ◌≢◌, arith, inl, inr, ap, sym, ◌∙◌, some, length, length-append, subst,
  insert_absent,
}
use orb_mq.Session.State.{Entry, Cell}
use orb_mq.Session.Queue.{
  first_unsent, sent, nothing, free_id, id_fuel, replay_entry, send_entry, next,
}
use orb_mq.Session.Queue.Entries.{assigned, current, total_bytes, Ordered, IsEntry, Entries}
use orb_mq.Session.Queue.Send.{
  AllSent, first_unsent_splits, length-moved, total_bytes-moved, Entries-moved, Ordered-moved,
  current-moved, assigned-resent, length-assigned_first, assigned-sent, Entries-middle,
}
use orb_mq.Session.Queue.Ids.{free_id_sound}
use orb_mq.Session.Queue.Invariant.{IsSession}

-- The queue, split where `Next` found an entry that this epoch has not sent.
module _ (c : Cell) (before : List Entry) (m : Entry) (after : List Entry)
    (v : IsSession c.limits c.state) (split : c.state.entries ≡ before ++ m ∷ after)
    (sent_before : AllSent c.state.epoch before) (unsent : m.last_epoch ≢ c.state.epoch)
    (room : c.state.active_inflight < c.limits.max_inflight_messages_per_session) where
  open c use {state as s, limits as l}

  Entries-split : Entries s.epoch s.next_ref (before ++ m ∷ after)
  Entries-split = subst (Entries s.epoch s.next_ref) split v.entries_ok

  Ordered-split : Ordered s.epoch 0 (before ++ m ∷ after)
  Ordered-split = subst (Ordered s.epoch 0) split v.ordered

  IsEntry-m : IsEntry s.epoch m
  IsEntry-m = Entries-middle s.epoch s.next_ref before m after Entries-split

  epoch_pos : 0 < s.epoch
  epoch_pos = omega (arith, IsEntry-m.not_ahead, unsent)

  -- What does not depend on whether the entry is sent again.
  moved-IsSession :
      (new_id : ℕ) (inflight : Map ℕ ℕ) (next_packet_id : ℕ)
      → new_id < 65536
      → new_id ≢ 0
      → inflight ≡ assigned (before ++ sent m new_id s.epoch ∷ after)
      → Distinct inflight
      → length inflight ≤ l.max_inflight_messages_per_session
      → next_packet_id < 65536
      → IsSession l (record s {
        entries = before ++ sent m new_id s.epoch ∷ after;
        inflight = inflight;
        next_packet_id = next_packet_id;
        active_inflight = s.active_inflight + 1;
      })
  moved-IsSession new_id inflight next_packet_id lt nz a d w q = record {
    messages =
        v.messages
        ∙ (ap length split ∙ sym (length-moved s.epoch s.next_ref m after new_id before));
    bytes =
        v.bytes
        ∙ (ap total_bytes split ∙ sym (total_bytes-moved s.epoch s.next_ref m after new_id before));
    messages_bound = v.messages_bound;
    bytes_bound = v.bytes_bound;
    entries_ok =
        Entries-moved s.epoch s.next_ref m after new_id before epoch_pos lt nz Entries-split;
    in_flight = a;
    ids = subst Distinct a d;
    active =
        ap (λ n. n + 1) (v.active ∙ ap (current s.epoch) split)
        ∙ sym (current-moved s.epoch s.next_ref m after new_id before nz unsent);
    ordered =
        Ordered-moved s.epoch s.next_ref m after new_id before epoch_pos nz sent_before
          Entries-split Ordered-split;
    window = subst (λ i. length i ≤ l.max_inflight_messages_per_session) a w;
    epoch_range = v.epoch_range;
    last_id = q;
  }

  replay-IsSession : m.packet_id ≢ 0 → IsSession l (replay_entry c before m after).1.state
  unfolding replay_entry
  replay-IsSession nz =
      moved-IsSession m.packet_id s.inflight s.next_packet_id IsEntry-m.id_range nz
        (v.in_flight
          ∙ (ap assigned split
              ∙ sym (assigned-resent s.epoch s.next_ref m after m.packet_id before refl)))
        (rw v.in_flight v.ids) (rw v.in_flight v.window) v.last_id

  in_flight_split : s.inflight ≡ assigned (before ++ m ∷ after)
  in_flight_split = v.in_flight ∙ ap assigned split

  -- There is room for one more identifier: all in flight belong to this epoch.
  pub length-in_flight : m.packet_id ≡ 0 → length s.inflight ≡ s.active_inflight
  length-in_flight z =
      ap length in_flight_split
      ∙ (length-assigned_first s.epoch s.next_ref m after 0 before epoch_pos z sent_before
            Entries-split Ordered-split
          ∙ sym (v.active ∙ ap (current s.epoch) split))

  insert-IsSession :
      (k : ℕ)
      → m.packet_id ≡ 0
      → (lookup k s.inflight ≡ none) × (k < 65536) × (k ≢ 0)
      → IsSession l (record s {
        entries = before ++ sent m k s.epoch ∷ after;
        inflight = insert k m.ref s.inflight;
        next_packet_id = k;
        active_inflight = s.active_inflight + 1;
      })
  insert-IsSession k z (h, lt, nz) =
      moved-IsSession k (insert k m.ref s.inflight) k lt nz
        (ap (insert k m.ref) in_flight_split
          ∙ sym (
              assigned-sent s.epoch s.next_ref m after k before z nz Ordered-split
                (subst (λ i. lookup k i ≡ none) in_flight_split h)))
        (Distinct-insert k m.ref s.inflight (rw v.in_flight v.ids))
        (omega (
          arith,
          ap length (insert_absent k m.ref s.inflight h),
          length-append s.inflight ((k, m.ref) ∷ []),
          length-in_flight z,
          room,
        ))
        lt

  send-IsSession : m.packet_id ≡ 0 → IsSession l (send_entry c before m after).1.state
  unfolding send_entry
  send-IsSession z = elim (Option-cases (free_id id_fuel s.inflight s.next_packet_id)) [
    | inl e ↦ rw (e, send_entry) v
    | inr (k, e) ↦
        rw (e, send_entry)
          (insert-IsSession k z (free_id_sound id_fuel s.inflight s.next_packet_id k e))
  ]

-- What `Next` does: nothing, or one of its two halves at the first entry that it has not sent.
pub data NextCase (epoch : ℕ) (c : Cell) : Type 0 where
  idle : next epoch c ≡ (nothing, c) → NextCase epoch c
  selects :
      (before : List Entry) (m : Entry) (after : List Entry)
      → c.state.entries ≡ before ++ m ∷ after
      → AllSent c.state.epoch before
      → m.last_epoch ≢ c.state.epoch
      → c.state.active_inflight < c.limits.max_inflight_messages_per_session
      → next epoch c
        ≡ (if m.packet_id == 0 then send_entry c before m after else replay_entry c before m after)
      → NextCase epoch c

is_closed : ℕ → Cell → Bool
is_closed epoch c =
    c.state.deleted
    || c.state.paused
    || not (epoch == c.state.epoch)
    || leb c.limits.max_inflight_messages_per_session c.state.active_inflight

next_closed : (epoch : ℕ) (c : Cell) → is_closed epoch c ≡ true → next epoch c ≡ (nothing, c)
unfolding next is_closed
next_closed epoch c h = simp h

next_open :
    (epoch : ℕ) (c : Cell)
    → is_closed epoch c ≡ false
    → next epoch c ≡ elim (first_unsent epoch c.state.entries) [
      | none ↦ (nothing, c)
      | some (before, m, after) ↦
          if m.packet_id == 0 then send_entry c before m after else replay_entry c before m after
    ]
unfolding next is_closed
next_open epoch c h = simp h

open_facts :
    (epoch : ℕ) (c : Cell)
    → is_closed epoch c ≡ false
    → (epoch ≡ c.state.epoch)
      × (c.state.active_inflight < c.limits.max_inflight_messages_per_session)
unfolding is_closed
open_facts epoch c h = ground arith

pub next_cases : (epoch : ℕ) (c : Cell) → NextCase epoch c
next_cases epoch c = elim (Bool-cases (is_closed epoch c)) [
  | inl h ↦ idle (next_closed epoch c h)
  | inr h ↦ elim (Option-cases (first_unsent epoch c.state.entries)) [
    | inl e ↦ idle (next_open epoch c h ∙ rw e)
    | inr ((before, m, after), e) ↦
        let (same, room) = open_facts epoch c h in
        let (split, all, one) = first_unsent_splits epoch c.state.entries before m after e in
        selects before m after split (subst (λ k. AllSent k before) same all)
          (subst (λ k. m.last_epoch ≢ k) same one) room (next_open epoch c h ∙ rw e)
  ]
]

-- A selection keeps the invariant, whether it finds a message or not.
pub next-IsSession :
    (epoch : ℕ) (c : Cell) → IsSession c.limits c.state → IsSession c.limits (next epoch c).1.state
next-IsSession epoch c v = elim (next_cases epoch c) [
  | idle e ↦ rw e v
  | selects before m after split all one room e ↦ elim (Bool-cases (m.packet_id == 0)) [
    | inl z ↦ rw (e, z) (send-IsSession c before m after v split all one room (ground arith))
    | inr z ↦ rw (e, z) (replay-IsSession c before m after v split all one room (ground arith))
  ]
]
