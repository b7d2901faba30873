-- ===== src/Server/Delivery.antt =====
-- internal/server/server.go: publishMessage, which delivers a message to the subscriptions that the
-- broker matches. It holds a read lock on the registry, so no connection or session changes hands
-- meanwhile. What is queued for a client of QoS 0 is an answer; the client's queue, and the close of
-- a client whose queue refuses, are not part of the state. All admissions of a message have one time.
pub mod Fills
pub mod Loop
pub mod Offers
pub mod Once
pub mod Spares
pub mod Steps
use orb_mq.Base.{
  ℕ, Bytes, bytes_Eq, nat_eq, lookup, Bool, true, false, not, ◌||◌, ◌==◌, if◌then◌else◌, List, [],
  ◌∷◌, Option, none, some,
}
use orb_mq.Protocol.Packet.{PublishPacket}
use orb_mq.Protocol.Reader.{Result, ok, err, Error}
use orb_mq.Topic.Tree.{Subscription as Route}
use orb_mq.Broker.{publish}
use orb_mq.Session.State.{Cell}
use orb_mq.Session.Queue.{Admission, admit}
use orb_mq.Session.Store.{Store, cell_of, call, get}
use orb_mq.Server.Templates.{
  Template, Cache, delivery_qos, new_outbound_publish, qos0_payload, qos1_template,
}
use orb_mq.Server.Sessions.{Connection, Server}

-- What became of a subscription: nothing, an error of the encoder, bytes for the client of a
-- connection, or the answer of the session's queue.
pub data Delivered : Type 0 where
  skipped : Delivered
  unencoded : Error → Delivered
  enqueues : ℕ → Bytes → Delivered
  answered : Option Admission → Delivered

abbrev pub Step : Type 0
Step = Delivered × Cache × Server

-- The answer of `Admit` on the session at an address.
unfoldable pub admission_at : Bytes → ℕ → ℕ → ℕ → Store → Option Admission
admission_at raw offset now ref st = elim (lookup ref st.states) [
  | none ↦ none
  | some s ↦ some (admit raw offset now (cell_of st s)).0
]

-- The connection takes messages of QoS 0 for the session.
abbrev pub takes : ℕ → Connection → Bool
takes ref k = not (k.closing || not k.ready || not (k.session == ref))

abbrev pub encoded_qos0 : ℕ → Server → Result Bytes × Cache → Step
encoded_qos0 owner srv (err e, cache) = (unencoded e, cache, srv)
encoded_qos0 owner srv (ok raw, cache) = (enqueues owner raw, cache, srv)

abbrev pub encoded_qos1 : ℕ → ℕ → Server → Result Template × Cache → Step
encoded_qos1 now ref srv (err e, cache) = (unencoded e, cache, srv)
encoded_qos1 now ref srv (ok t, cache) = (
  answered (admission_at t.raw t.packet_id_offset now ref srv.sessions),
  cache,
  record srv { sessions = call (λ c. (admit t.raw t.packet_id_offset now c).1) ref srv.sessions },
)

module _ (encode : PublishPacket → Result Bytes) where
  unfoldable pub deliver_qos0 : PublishPacket → Bytes → ℕ → Cache → Server → Step
  deliver_qos0 outbound id ref cache srv = elim (lookup id srv.clients) [
    | none ↦ (skipped, cache, srv)
    | some k ↦
        if takes ref k
        then encoded_qos0 k.ref srv (qos0_payload encode outbound cache)
        else (skipped, cache, srv)
  ]

  -- `deliverPublishToSubscriber`
  unfoldable pub deliver_publish : PublishPacket → Route → ℕ → Cache → Server → Step
  deliver_publish p sub now cache srv = elim (get sub.client_id srv.sessions) [
    | none ↦ (skipped, cache, srv)
    | some ref ↦
        let qos = delivery_qos p.qos sub.qos in
        let outbound = new_outbound_publish p qos in
        if not (sub.subscriber == ref)
        then (skipped, cache, srv)
        else if qos == 0
        then deliver_qos0 outbound sub.client_id ref cache srv
        else encoded_qos1 now ref srv (qos1_template encode outbound cache)
  ]

  -- The loop of the broker's Publish over the subscriptions; it goes on after an error.
  unfoldable pub deliver_all :
      PublishPacket → List Route → ℕ → Cache → Server → List Delivered × Server
  deliver_all p [] now cache srv = ([], srv)
  deliver_all p (sub ∷ subs) now cache srv =
      let (d, cache', srv') = deliver_publish p sub now cache srv in
      let (ds, srv'') = deliver_all p subs now cache' srv' in (d ∷ ds, srv'')

  -- The subscriptions of a message that the retained store does not refuse.
  abbrev pub deliver_matched :
      PublishPacket → ℕ → Server → Option (List Route) → Option (List Delivered) × Server
  deliver_matched p now srv none = (none, srv)
  deliver_matched p now srv (some subs) =
      let (ds, srv') = deliver_all p subs now (record { qos0 = none; qos1 = none }) srv in
      (some ds, srv')

  -- `publishMessage`; `none` where Publish returns an error. The error that it returns otherwise is
  -- the last one of the list.
  unfoldable pub publish_message : PublishPacket → ℕ → Server → Option (List Delivered) × Server
  publish_message p now srv =
      let (subs, b) = publish srv.broker p in deliver_matched p now (record srv { broker = b }) subs
