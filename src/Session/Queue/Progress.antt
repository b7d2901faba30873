-- ===== src/Session/Queue/Progress.antt =====
-- internal/session/queue.go: what `Next` sends, and when.
use orb_mq.Base.{
  ℕ, ◌≤◌, ◌<◌, lookup, nat_eq, Bool, Bool-cases, subst, true, false, not, ◌==◌, leb, if◌then◌else◌,
  List, none, some, ◌≡◌, refl, ◌≢◌, arith, inl, inr, ◌⊎◌,
}
use orb_mq.Session.Limits.{Limits, validate}
use orb_mq.Session.State.{Entry, Cell, Delivery, State}
use orb_mq.Session.Queue.{
  first_unsent, stamp, next, deliver, free_id, id_fuel, replay_entry, send_entry,
}
use orb_mq.Session.Queue.Send.{first_unsent_splits, Entries-middle}
use orb_mq.Session.Queue.Stamp.{IsCopy, stamp-IsCopy}
use orb_mq.Session.Queue.Entries.{Entries}
use orb_mq.Session.Queue.Ids.{free_id_total}
use orb_mq.Session.Queue.Invariant.{IsSession}
use orb_mq.Session.Queue.Selects.{length-in_flight}

-- The guard of `Next`, for the epoch of the session.
pub record MaySend (c : Cell) : Type 0 where
  pub present : c.state.deleted ≡ false
  pub running : c.state.paused ≡ false
  pub room : c.state.active_inflight < c.limits.max_inflight_messages_per_session

-- What goes out for `m`: a copy of its bytes with the DUP flag and the identifier that `m` has, or
-- without the flag and with an identifier from 1 to 65,535 that was not in flight.
abbrev pub Sends : State → Entry → Delivery → Type 0
Sends s m d =
    IsCopy m.packet m.packet_id_offset (not (m.packet_id == 0)) d.packet_id d.packet
    × ((m.packet_id ≢ 0 × (d.packet_id ≡ m.packet_id))
        ⊎ ((m.packet_id ≡ 0)
            × (lookup d.packet_id s.inflight ≡ none)
            × (d.packet_id < 65536)
            × (d.packet_id ≢ 0)))

next_unblocked :
    (c : Cell) (before : List Entry) (m : Entry) (after : List Entry)
    → MaySend c
    → first_unsent c.state.epoch c.state.entries ≡ some (before, m, after)
    → next c.state.epoch c
      ≡ (if m.packet_id == 0 then send_entry c before m after else replay_entry c before m after)
unfolding next
next_unblocked c before m after may e =
    let room : leb c.limits.max_inflight_messages_per_session c.state.active_inflight ≡ false =
      ground (arith, may.room) in
    let now : (c.state.epoch == c.state.epoch) ≡ true = ground arith in
    simp (may.present, may.running, room, now, e)

send_entry-delivers :
    (c : Cell) (before : List Entry) (m : Entry) (after : List Entry) (k : ℕ)
    → m.packet_id == 0 ≡ true
    → MaySend c
    → first_unsent c.state.epoch c.state.entries ≡ some (before, m, after)
    → free_id id_fuel c.state.inflight c.state.next_packet_id ≡ some k
    → (next c.state.epoch c).0
      ≡ deliver (record { packet = stamp m.packet false m.packet_id_offset k; packet_id = k })
unfolding send_entry
send_entry-delivers c before m after k z may e f =
    rw (next_unblocked c before m after may e, z, send_entry, f) refl

validate_window : (l : Limits) → validate l ≡ none → l.max_inflight_messages_per_session ≤ 65535
unfolding validate
validate_window l h = ground arith

-- Under limits that Validate accepts, a session that may send delivers the first message of its
-- queue that this epoch did not send. Its bytes are those of the message, with bit 3 of the first
-- byte set exactly if the message had an identifier, and with the identifier in the two bytes at the
-- offset: the old one, or else one from 1 to 65,535 that was not in flight.
pub next-MaySend :
    (c : Cell) (before : List Entry) (m : Entry) (after : List Entry)
    → IsSession c.limits c.state
    → validate c.limits ≡ none
    → MaySend c
    → first_unsent c.state.epoch c.state.entries ≡ some (before, m, after)
    → (d : Delivery) × ((next c.state.epoch c).0 ≡ deliver d) × Sends c.state m d
unfolding replay_entry
next-MaySend c before m after v valid may e =
    let (split, all, one) = first_unsent_splits c.state.epoch c.state.entries before m after e in
    let s = c.state in
    let middle =
      Entries-middle s.epoch s.next_ref before m after
        (subst (Entries s.epoch s.next_ref) split v.entries_ok) in
    let copy =
      λ (dup : Bool) (id : ℕ). stamp-IsCopy m.packet m.packet_id_offset dup id middle.queued in
    elim (Bool-cases (m.packet_id == 0)) [
      | inl z ↦
          let size = length-in_flight c before m after v split all one may.room (ground arith) in
          let (k, f, absent, lt, nz) =
            free_id_total s.inflight s.next_packet_id v.last_id
              (omega (arith, size, may.room, validate_window c.limits valid)) in
          (
            record { packet = stamp m.packet false m.packet_id_offset k; packet_id = k },
            send_entry-delivers c before m after k z may e f,
            (rw z (copy false k), inr (ground arith, absent, lt, nz)),
          )
      | inr z ↦ (
        record {
          packet = stamp m.packet true m.packet_id_offset m.packet_id;
          packet_id = m.packet_id;
        },
        rw (next_unblocked c before m after may e, z) refl,
        (rw z (copy true m.packet_id), inl (ground arith, refl)),
      )
    ]
