-- ===== src/Session/Queue.antt =====
-- internal/session/queue.go: admission, delivery attempts and acknowledgements of QoS 1 messages.
pub mod Entries
pub mod Send
pub mod Stamp
pub mod Ids
pub mod Selects
pub mod Progress
pub mod Acknowledge
pub mod Invariant
use orb_mq.Base.{
  ℕ, zero, suc, ◌+◌, ◌-◌, ◌*◌, ◌/◌, ◌%◌, ◌≤◌, ◌<◌, Bytes, Map, lookup, insert, delete, nat_eq, Bool,
  true, false, not, ◌&&◌, ◌||◌, ltb, leb, ◌==◌, if◌then◌else◌, List, [], ◌∷◌, ◌++◌, Option, none,
  some, length, set, bit_or, bit_and,
}
use orb_mq.Session.Limits.{Limits}
use orb_mq.Session.State.{Snapshot, Entry, Delivery, State, Cell, next64}

pub data DropReason : Type 0 where
  session_limit global_limit : DropReason

pub data Admission : Type 0 where
  admitted invalid_queued_publish session_removed : Admission
  dropped : DropReason → Admission

-- The test of the encoded PUBLISH: QoS 1, and room for the identifier behind two bytes.
unfoldable pub is_queued_publish : Bytes → ℕ → Bool
is_queued_publish [] offset = false
is_queued_publish (a ∷ []) offset = false
is_queued_publish (a ∷ b ∷ rest) offset =
    a / 16 == 3 && a / 2 % 4 == 1 && leb 2 offset && leb offset (length rest)

-- `notifyLocked`: a full channel is left as it is.
abbrev pub notify : State → State
notify s = record s { changed = true }

-- The limit that refuses a message of `n` bytes, if one does.
unfoldable pub drop_reason : Limits → Snapshot → Snapshot → ℕ → Option DropReason
drop_reason l stats totals n =
    if leb l.max_pending_messages_per_session stats.pending_messages
      || ltb l.max_pending_bytes_per_session (stats.pending_bytes + n)
    then some session_limit
    else if leb l.max_pending_messages_global totals.pending_messages
        || ltb l.max_pending_bytes_global (totals.pending_bytes + n)
    then some global_limit
    else none

abbrev pub count_drop : DropReason → Snapshot → Snapshot
count_drop session_limit t = record t { session_limit_drops = next64 t.session_limit_drops }
count_drop global_limit t = record t { global_limit_drops = next64 t.global_limit_drops }

abbrev pub new_entry : State → Bytes → ℕ → ℕ → Entry
new_entry s packet offset now = record {
  ref = s.next_ref;
  packet = packet;
  packet_id_offset = offset;
  packet_id = 0;
  last_epoch = 0;
  accepted = now;
}

abbrev pub add_pending : ℕ → Snapshot → Snapshot
add_pending n t = record t {
  pending_messages = t.pending_messages + 1;
  pending_bytes = t.pending_bytes + n;
}

abbrev pub enqueue : Cell → Bytes → ℕ → ℕ → Cell
enqueue c packet offset now =
    let s = c.state in
    record c {
      totals = add_pending (length packet) c.totals;
      state = notify (record s {
        entries = s.entries ++ new_entry s packet offset now ∷ [];
        stats = add_pending (length packet) s.stats;
        next_ref = s.next_ref + 1;
      });
    }

abbrev pub refuse : Cell → DropReason → Cell
refuse c reason =
    let s = c.state in
    record c {
      totals = count_drop reason c.totals;
      state = record s { stats = count_drop reason s.stats };
    }

-- `Admit`
unfoldable pub admit : Bytes → ℕ → ℕ → Cell → Admission × Cell
admit packet offset now c =
    if not (is_queued_publish packet offset)
    then (invalid_queued_publish, c)
    else if c.state.deleted
    then (session_removed, c)
    else elim (drop_reason c.limits c.state.stats c.totals (length packet)) [
      | some reason ↦ (dropped reason, refuse c reason)
      | none ↦ (admitted, enqueue c packet offset now)
    ]

-- `BeginDelivery`
unfoldable pub begin_delivery : State → ℕ × State
begin_delivery s =
    let epoch = next64 s.epoch in (epoch, notify (record s { epoch = epoch; active_inflight = 0 }))

unfoldable pub pause_delivery : State → State
pause_delivery s = record s { paused = true }

unfoldable pub resume_delivery : State → State
resume_delivery s = notify (record s { paused = false })

-- The loop of `Next` over the entries: what stands before the first entry that this epoch has not
-- sent, that entry, and what stands behind it.
unfoldable pub first_unsent : ℕ → List Entry → Option (List Entry × Entry × List Entry)
first_unsent epoch [] = none
first_unsent epoch (e ∷ es) =
    let rest = first_unsent epoch es in
    if e.last_epoch == epoch
    then elim rest [ none ↦ none | some (before, m, after) ↦ some (e ∷ before, m, after) ]
    else some ([], e, es)

-- The uint16 after `n` that is not 0.
unfoldable pub next_id : ℕ → ℕ
next_id n = let n' = (n + 1) % 65536 in if n' == 0 then 1 else n'

-- The loop that looks for an identifier that is not in flight, on fuel.
unfoldable pub free_id : ℕ → Map ℕ ℕ → ℕ → Option ℕ
free_id zero inflight n = none
free_id (suc fuel) inflight n =
    let again = free_id fuel inflight (next_id n) in
    elim (lookup (next_id n) inflight) [ none ↦ some (next_id n) | some ref ↦ again ]

-- The copy that goes out: the DUP flag of the first byte, and the identifier in its place.
unfoldable pub stamp : Bytes → Bool → ℕ → ℕ → Bytes
stamp [] replay offset packet_id = []
stamp (a ∷ rest) replay offset packet_id =
    let first = if replay then bit_or a 8 else bit_and a 247 in
    set (set (first ∷ rest) offset (packet_id / 256)) (offset + 1) (packet_id % 256)

-- `exhausted` is no Go value: the search for an identifier ran out of fuel.
pub data Selection : Type 0 where
  nothing exhausted : Selection
  deliver : Delivery → Selection

-- More rounds than there are identifiers.
abbrev pub id_fuel : ℕ
id_fuel = 65536

abbrev pub sent : Entry → ℕ → ℕ → Entry
sent m packet_id epoch = record m { packet_id = packet_id; last_epoch = epoch }

-- Both halves of `Next` behind the loop: an entry that has an identifier goes out again, another
-- one gets an identifier first.
unfoldable pub replay_entry : Cell → List Entry → Entry → List Entry → Selection × Cell
replay_entry c before m after =
    let s = c.state in
    (
      deliver (record {
        packet = stamp m.packet true m.packet_id_offset m.packet_id;
        packet_id = m.packet_id;
      }),
      record c {
        state = record s {
          entries = before ++ sent m m.packet_id s.epoch ∷ after;
          active_inflight = s.active_inflight + 1;
        };
      },
    )

unfoldable pub send_entry : Cell → List Entry → Entry → List Entry → Selection × Cell
send_entry c before m after =
    let s = c.state in
    elim (free_id id_fuel s.inflight s.next_packet_id) [
      | none ↦ (exhausted, c)
      | some new_id ↦ (
        deliver (record {
          packet = stamp m.packet false m.packet_id_offset new_id;
          packet_id = new_id;
        }),
        record c {
          totals = record c.totals { inflight_messages = c.totals.inflight_messages + 1 };
          state = record s {
            entries = before ++ sent m new_id s.epoch ∷ after;
            inflight = insert new_id m.ref s.inflight;
            next_packet_id = new_id;
            active_inflight = s.active_inflight + 1;
          };
        },
      )
    ]

-- `Next`
unfoldable pub next : ℕ → Cell → Selection × Cell
next epoch c =
    let s = c.state in
    if s.deleted
      || s.paused
      || not (epoch == s.epoch)
      || leb c.limits.max_inflight_messages_per_session s.active_inflight
    then (nothing, c)
    else elim (first_unsent epoch s.entries) [
      | none ↦ (nothing, c)
      | some (before, m, after) ↦
          if m.packet_id == 0 then send_entry c before m after else replay_entry c before m after
    ]

-- The object at an address.
unfoldable pub find_entry : ℕ → List Entry → Option Entry
find_entry ref [] = none
find_entry ref (e ∷ es) = if e.ref == ref then some e else find_entry ref es

-- The loop of `Ack` that takes the acknowledged entry out.
unfoldable pub remove_entry : ℕ → List Entry → List Entry
remove_entry ref [] = []
remove_entry ref (e ∷ es) = if e.ref == ref then es else e ∷ remove_entry ref es

-- `s.inflight[packetID]`, followed. Go follows the pointer whether or not the entry is in the queue;
-- here an address outside of it leads to nothing. The map of a session that calls lead to has no such
-- address.
unfoldable pub inflight_entry : ℕ → State → Option Entry
inflight_entry packet_id s = elim (lookup packet_id s.inflight) [
  | none ↦ none
  | some ref ↦ find_entry ref s.entries
]

abbrev pub drop_pending : ℕ → Snapshot → Snapshot
drop_pending n t = record t {
  pending_messages = t.pending_messages - 1;
  pending_bytes = t.pending_bytes - n;
}

abbrev pub acknowledge : ℕ → Entry → Cell → Cell
acknowledge packet_id m c =
    let s = c.state in
    let totals = drop_pending (length m.packet) c.totals in
    record c {
      totals = record totals { inflight_messages = c.totals.inflight_messages - 1 };
      state = notify (record s {
        inflight = delete packet_id s.inflight;
        active_inflight =
            if m.last_epoch == s.epoch then s.active_inflight - 1 else s.active_inflight;
        entries = remove_entry m.ref s.entries;
        stats = drop_pending (length m.packet) s.stats;
      });
    }

-- `Ack`
unfoldable pub ack : ℕ → Cell → Cell
ack packet_id c = elim (inflight_entry packet_id c.state) [
  | none ↦ c
  | some m ↦ if c.state.deleted then c else acknowledge packet_id m c
]
