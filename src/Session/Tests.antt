-- ===== src/Session/Tests.antt =====
-- Runs of the delivery queue, and the theorems about it at a concrete session.
use orb_mq.Base.{Bytes, codes, [], ◌∷◌, true, false, some, lookup, nat_eq, ◌≡◌, refl, arith}
use orb_mq.Base.{none}
use orb_mq.Session.Limits.{default_limits, validate}
use orb_mq.Session.State.{Delivery, Snapshot, Entry, State, Cell}
use orb_mq.Session.Queue.{
  deliver, first_unsent, admit, begin_delivery, next, ack, free_id, next_id, find_entry,
  inflight_entry,
}
use orb_mq.Session.Queue.Entries.{assigned, current, total_bytes}
use orb_mq.Session.Queue.Invariant.{IsSession, admit-IsSession, begin_delivery-IsSession}
use orb_mq.Session.Queue.Acknowledge.{ack-IsSession}
use orb_mq.Session.Queue.Selects.{next-IsSession}
use orb_mq.Session.Queue.Progress.{MaySend, Sends, next-MaySend}
use orb_mq.Session.Subscriptions.{set_subscription}
use orb_mq.Session.Store.{Store, no_counts, new_store, call, get_or_create_owned, delete_session}
use orb_mq.Session.Store.Invariant.{IsStore}
use orb_mq.Session.Store.Reachable.{
  admits, subscribes, started, opens, deletes, calls, Reachable-IsStore,
}

-- An encoded PUBLISH of QoS 1, whose identifier stands at offset 5.
abbrev packet : Bytes
packet = 0x32 ∷ 5 ∷ 0 ∷ 1 ∷ 97 ∷ 0 ∷ 1 ∷ []

abbrev counted : Snapshot
counted = record {
  session_count = 0;
  subscription_count = 0;
  session_rejections = 0;
  subscription_rejections = 0;
  filter_rejections = 0;
  expired_sessions = 0;
  pending_messages = 2;
  pending_bytes = 14;
  inflight_messages = 1;
  session_limit_drops = 0;
  global_limit_drops = 0;
  oldest_pending_age = 0;
}

abbrev first : Entry
first = record {
  ref = 0;
  packet = packet;
  packet_id_offset = 5;
  packet_id = 1;
  last_epoch = 1;
  accepted = 10;
}

abbrev second_entry : Entry
second_entry = record {
  ref = 1;
  packet = packet;
  packet_id_offset = 5;
  packet_id = 0;
  last_epoch = 0;
  accepted = 11;
}

-- Two messages, of which the first is in flight.
abbrev busy : State
busy = record {
  id = codes "c";
  owner = [];
  deleted = false;
  subscriptions = [];
  entries = first ∷ second_entry ∷ [];
  inflight = (1, 0) ∷ [];
  next_packet_id = 1;
  epoch = 1;
  active_inflight = 1;
  paused = false;
  changed = false;
  stats = counted;
  connected = true;
  offline_since = 0;
  next_ref = 2;
}

abbrev cell : Cell
cell = record { limits = default_limits; totals = counted; state = busy }

busy-IsSession : IsSession default_limits busy
unfolding assigned current total_bytes find_entry lookup orb_mq.Session.Queue.is_queued_publish
busy-IsSession = record {
  messages = refl;
  bytes = refl;
  messages_bound = omega arith;
  bytes_bound = omega arith;
  entries_ok = (
    record { not_ahead = omega arith; id_range = omega arith; unsent = refl; queued = refl },
    omega arith,
    refl,
    (
      record { not_ahead = omega arith; id_range = omega arith; unsent = refl; queued = refl },
      omega arith,
      refl,
      tt,
    ),
  );
  in_flight = refl;
  ids = (refl, tt);
  active = refl;
  ordered = omega arith;
  window = omega arith;
  epoch_range = omega arith;
  last_id = omega arith;
}

admit-IsSession_example : IsSession default_limits (admit packet 5 12 cell).1.state
admit-IsSession_example = admit-IsSession packet 5 12 cell busy-IsSession

begin_delivery-IsSession_example : IsSession default_limits (begin_delivery busy).1
begin_delivery-IsSession_example =
    begin_delivery-IsSession default_limits busy (omega arith) busy-IsSession

next-IsSession_example : IsSession default_limits (next 1 cell).1.state
next-IsSession_example = next-IsSession 1 cell busy-IsSession

ack-IsSession_example : IsSession default_limits (ack 1 cell).state
ack-IsSession_example = ack-IsSession 1 cell busy-IsSession

next_free : free_id 3 busy.inflight 0 ≡ some 2
unfolding free_id next_id lookup
next_free = refl

second_unsent : first_unsent 1 busy.entries ≡ some (first ∷ [], second_entry, [])
unfolding first_unsent
second_unsent = refl

defaults_valid : validate default_limits ≡ none
unfolding validate
defaults_valid = refl

cell-MaySend : MaySend cell
cell-MaySend = record { present = refl; running = refl; room = omega arith }

next-MaySend_example : (d : Delivery) × ((next 1 cell).0 ≡ deliver d) × Sends busy second_entry d
next-MaySend_example =
    next-MaySend cell (first ∷ []) second_entry [] busy-IsSession defaults_valid cell-MaySend
      second_unsent

abbrev empty_store : Store
empty_store = record {
  by_id = [];
  states = [];
  limits = default_limits;
  totals = no_counts;
  next_state = 0;
}

new_store_defaults : new_store default_limits ≡ some empty_store
unfolding new_store validate
new_store_defaults = refl

-- Two sessions; the first subscribes and gets a message, and the second is deleted.
abbrev store_opened : Store
store_opened =
    (get_or_create_owned (codes "d") [] 7 (get_or_create_owned (codes "c") [] 5 empty_store).1).1

abbrev store_used : Store
store_used = delete_session (codes "d") (
    call (λ c. (admit packet 5 12 c).1) 0
      (call (λ c. (set_subscription (codes "a/+") 1 c).1) 0 store_opened))

Reachable-IsStore_example : IsStore store_used
Reachable-IsStore_example = Reachable-IsStore store_used (
    deletes (codes "d") (
      calls _ 0 (admits packet 5 12) (
        calls _ 0 (subscribes (codes "a/+") 1) (
          opens (codes "d") [] 7
            (opens (codes "c") [] 5 (started default_limits empty_store new_store_defaults))))))
