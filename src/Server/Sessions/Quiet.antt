-- ===== src/Server/Sessions/Quiet.antt =====
-- internal/session/queue.go: what delivery leaves alone in a session.
use orb_mq.Base.{ℕ, Bytes, Bool-cases, Option-cases, ◌==◌, List, length, ◌≡◌, inl, inr, refl}
use orb_mq.Session.State.{Entry, Cell}
use orb_mq.Session.Queue.{
  id_fuel, is_queued_publish, drop_reason, admit, free_id, replay_entry, send_entry, next, ack,
  begin_delivery, pause_delivery, resume_delivery,
}
use orb_mq.Session.Queue.Invariant.{admit_room, admit_full}
use orb_mq.Session.Queue.Selects.{idle, selects, next_cases}
use orb_mq.Session.Queue.Acknowledge.{ack_cases}
use orb_mq.Session.Store.{on_state}
use orb_mq.Session.Store.Reachable.{Method, admits, selects_next, acknowledges, pauses, resumes}

-- Neither the subscriptions nor the connection of the session change.
pub record Quiet (c c' : Cell) : Type 0 where
  pub subscriptions : c'.state.subscriptions ≡ c.state.subscriptions
  pub connected : c'.state.connected ≡ c.state.connected

-- The methods of a session that deliver messages.
pub data Delivering : (Cell → Cell) → Type 0 where
  admitting : (packet : Bytes) (offset now : ℕ) → Delivering (λ c. (admit packet offset now c).1)
  selecting : (epoch : ℕ) → Delivering (λ c. (next epoch c).1)
  acknowledging : (id : ℕ) → Delivering (ack id)
  pausing : Delivering (on_state pause_delivery)
  resuming : Delivering (on_state resume_delivery)

pub Delivering-Method : {f : Cell → Cell} → Delivering f → Method f
Delivering-Method (admitting packet offset now) = admits packet offset now
Delivering-Method (selecting epoch) = selects_next epoch
Delivering-Method (acknowledging id) = acknowledges id
Delivering-Method pausing = pauses
Delivering-Method resuming = resumes

Quiet-refl : (c : Cell) → Quiet c c
Quiet-refl c = record { subscriptions = refl; connected = refl }

admit-Quiet : (packet : Bytes) (offset now : ℕ) (c : Cell) → Quiet c (admit packet offset now c).1
admit-Quiet packet offset now c = elim (Bool-cases (is_queued_publish packet offset)) [
  | inr q ↦ unfold admit in rw q (Quiet-refl c)
  | inl q ↦ elim (Bool-cases c.state.deleted) [
    | inl d ↦ unfold admit in simp (q, d) (Quiet-refl c)
    | inr d ↦ elim (Option-cases (drop_reason c.limits c.state.stats c.totals (length packet))) [
      | inl e ↦
          rw (admit_room packet offset now c q d e)
            (record { subscriptions = refl; connected = refl })
      | inr (r, e) ↦
          rw (admit_full packet offset now c r q d e)
            (record { subscriptions = refl; connected = refl })
    ]
  ]
]

send_entry-Quiet :
    (c : Cell) (before : List Entry) (m : Entry) (after : List Entry)
    → Quiet c (send_entry c before m after).1
unfolding send_entry
send_entry-Quiet c before m after =
    elim (Option-cases (free_id id_fuel c.state.inflight c.state.next_packet_id)) [
      | inl e ↦ rw (e, send_entry) (Quiet-refl c)
      | inr (k, e) ↦ rw (e, send_entry) (record { subscriptions = refl; connected = refl })
    ]

next-Quiet : (epoch : ℕ) (c : Cell) → Quiet c (next epoch c).1
unfolding replay_entry
next-Quiet epoch c = elim (next_cases epoch c) [
  | idle e ↦ rw e (Quiet-refl c)
  | selects before m after split all one room e ↦ elim (Bool-cases (m.packet_id == 0)) [
    | inl z ↦ rw (e, z) (send_entry-Quiet c before m after)
    | inr z ↦ rw (e, z) (record { subscriptions = refl; connected = refl })
  ]
]

ack-Quiet : (id : ℕ) (c : Cell) → Quiet c (ack id c)
ack-Quiet id c = elim (ack_cases id c) [
  | inl e ↦ rw e (Quiet-refl c)
  | inr (m, e, q) ↦ rw q (record { subscriptions = refl; connected = refl })
]

pub Delivering-Quiet : {f : Cell → Cell} → Delivering f → (c : Cell) → Quiet c (f c)
unfolding pause_delivery resume_delivery
Delivering-Quiet (admitting packet offset now) c = admit-Quiet packet offset now c
Delivering-Quiet (selecting epoch) c = next-Quiet epoch c
Delivering-Quiet (acknowledging id) c = ack-Quiet id c
Delivering-Quiet pausing c = record { subscriptions = refl; connected = refl }
Delivering-Quiet resuming c = record { subscriptions = refl; connected = refl }

pub begin_delivery-Quiet : (c : Cell) → Quiet c (on_state (λ s. (begin_delivery s).1) c)
unfolding begin_delivery
begin_delivery-Quiet c = record { subscriptions = refl; connected = refl }
