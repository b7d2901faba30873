-- ===== src/Server/Delivery/Offers.antt =====
-- internal/server/server.go: a delivery with QoS 1, from the cached encoding to the session's queue.
use orb_mq.Base.{
  ℕ, Bytes, bytes_Eq, nat_eq, lookup, Option-cases, not, if_rule, ◌==◌, true, false, [], ◌∷◌, none,
  some, inl, inr, arith, refl, sym, ap, ◌∙◌, subst, ◌⊎◌, ◌≡◌, ◌++◌, length, ◌≤◌, ◌<◌, ◌+◌,
}
use orb_mq.Protocol.Packet.{PublishPacket}
use orb_mq.Protocol.Reader.{Result, ok, err}
use orb_mq.Topic.Tree.{Subscription as Route}
use orb_mq.Session.Limits.{Limits}
use orb_mq.Session.State.{Snapshot, State, Entry, Cell, next64}
use orb_mq.Session.Queue.{
  DropReason, session_limit, global_limit, is_queued_publish, drop_reason, new_entry, refuse, admit,
}
use orb_mq.Session.Queue.Invariant.{admit_room, admit_full}
use orb_mq.Protocol.Encoded.{Result-cases}
use orb_mq.Session.Store.{call, get}
use orb_mq.Server.Templates.{
  Template, Cache, delivery_qos, new_outbound_publish, new_publish_template, qos0_payload,
  qos1_template,
}
use orb_mq.Server.Sessions.{Server}
use orb_mq.Server.Delivery.{Step, takes, encoded_qos0, deliver_qos0, deliver_publish}

-- The message stands at the end of the session's queue and has no identifier yet.
pub record IsEntered (t : Template) (before after : State) : Type 0 where
  pub entry : Entry
  pub entries : after.entries ≡ before.entries ++ entry ∷ []
  pub packet : entry.packet ≡ t.raw
  pub offset : entry.packet_id_offset ≡ t.packet_id_offset
  pub no_id : entry.packet_id ≡ 0

-- So many messages are pending that one of this size exceeds a limit.
abbrev pub Exceeds : ℕ → ℕ → Snapshot → ℕ → Type 0
Exceeds max_messages max_bytes stats size =
    (max_messages ≤ stats.pending_messages) ⊎ (max_bytes < stats.pending_bytes + size)

-- The session had no room, and counts that.
abbrev pub IsSessionDrop : Limits → ℕ → State → State → Type 0
IsSessionDrop l size before after =
    Exceeds l.max_pending_messages_per_session l.max_pending_bytes_per_session before.stats size
    × (after.stats.session_limit_drops ≡ next64 before.stats.session_limit_drops)

-- The sessions together have no room, and this one counts that.
abbrev pub IsGlobalDrop : Limits → Snapshot → ℕ → State → State → Type 0
IsGlobalDrop l totals size before after =
    Exceeds l.max_pending_messages_global l.max_pending_bytes_global totals size
    × (after.stats.global_limit_drops ≡ next64 before.stats.global_limit_drops)

-- What became of the message at an open session: it stands in the queue, or a limit was reached, the
-- queue is as it was, and the drop is counted for that limit.
abbrev pub Offers : Template → Limits → Snapshot → State → State → Type 0
Offers t l totals before after =
    IsEntered t before after
    ⊎ (after.entries ≡ before.entries)
      × (IsSessionDrop l (length t.raw) before after
          ⊎ IsGlobalDrop l totals (length t.raw) before after)

-- More messages in all sessions leave it true.
pub Offers-more :
    (t : Template) (l : Limits) (totals totals' : Snapshot) (before after : State)
    → totals.pending_messages ≤ totals'.pending_messages
    → totals.pending_bytes ≤ totals'.pending_bytes
    → Offers t l totals before after
    → Offers t l totals' before after
Offers-more t l totals totals' before after m b (inl e) = inl e
Offers-more t l totals totals' before after m b (inr (e, inl d)) = inr (e, inl d)
Offers-more t l totals totals' before after m b (inr (e, inr (inl x, n))) =
    inr (e, inr (inl (omega (arith, m, x)), n))
Offers-more t l totals totals' before after m b (inr (e, inr (inr x, n))) =
    inr (e, inr (inr (omega (arith, b, x)), n))

drop_reason_session :
    (l : Limits) (stats totals : Snapshot) (n : ℕ)
    → drop_reason l stats totals n ≡ some session_limit
    → Exceeds l.max_pending_messages_per_session l.max_pending_bytes_per_session stats n
unfolding drop_reason
drop_reason_session l stats totals n e = ground (arith, e)

drop_reason_global :
    (l : Limits) (stats totals : Snapshot) (n : ℕ)
    → drop_reason l stats totals n ≡ some global_limit
    → Exceeds l.max_pending_messages_global l.max_pending_bytes_global totals n
unfolding drop_reason
drop_reason_global l stats totals n e = ground (arith, e)

refuse-Offers :
    (t : Template) (c : Cell) (reason : DropReason)
    → drop_reason c.limits c.state.stats c.totals (length t.raw) ≡ some reason
    → Offers t c.limits c.totals c.state (refuse c reason).state
refuse-Offers t c session_limit e =
    inr (refl, inl (drop_reason_session c.limits c.state.stats c.totals (length t.raw) e, refl))
refuse-Offers t c global_limit e =
    inr (refl, inr (drop_reason_global c.limits c.state.stats c.totals (length t.raw) e, refl))

pub admit-Offers :
    (t : Template) (now : ℕ) (c : Cell)
    → is_queued_publish t.raw t.packet_id_offset ≡ true
    → c.state.deleted ≡ false
    → Offers t c.limits c.totals c.state (admit t.raw t.packet_id_offset now c).1.state
admit-Offers t now c q d =
    elim (Option-cases (drop_reason c.limits c.state.stats c.totals (length t.raw))) [
      | inl e ↦ rw (admit_room t.raw t.packet_id_offset now c q d e) (
          inl (record {
            entry = new_entry c.state t.raw t.packet_id_offset now;
            entries = refl;
            packet = refl;
            offset = refl;
            no_id = refl;
          }))
      | inr (reason, e) ↦
          rw (admit_full t.raw t.packet_id_offset now c reason q d e) (refuse-Offers t c reason e)
    ]

-- A message of QoS 1 that the encoder takes.
module _ (encode : PublishPacket → Result Bytes) (p : PublishPacket) (t : Template) (now : ℕ)
    (one : p.qos ≡ 1)
    (encoded : new_publish_template encode (new_outbound_publish p 1) ≡ ok t) where
  abbrev pub IsCached : Cache → Type 0
  IsCached c = (c.qos1 ≡ none) ⊎ (c.qos1 ≡ some t)

  abbrev pub Admits : Cell → Cell
  Admits c = (admit t.raw t.packet_id_offset now c).1

  qos1_template_at :
      (c : Cache)
      → IsCached c
      → qos1_template encode (new_outbound_publish p 1) c ≡ (ok t, record c { qos1 = some t })
  unfolding qos1_template
  qos1_template_at c (inl e) = rw (qos1_template, e, encoded) refl
  qos1_template_at c (inr e) = rw (qos1_template, e) (ap (λ o. (ok t, record c { qos1 = o })) e)

  qos_at : (q : ℕ) → (delivery_qos p.qos q == 0) ≡ false → delivery_qos p.qos q ≡ 1
  unfolding delivery_qos
  qos_at q h = ground (arith, one)

  qos_covered : (q : ℕ) → 1 ≤ q → delivery_qos p.qos q ≡ 1
  unfolding delivery_qos
  qos_covered q h = ground (arith, one)

  pub deliver_publish-offers :
      (sub : Route) (cache : Cache) (srv : Server)
      → IsCached cache
      → get sub.client_id srv.sessions ≡ some sub.subscriber
      → 1 ≤ sub.qos
      → (deliver_publish encode p sub now cache srv).2.sessions
        ≡ call Admits sub.subscriber srv.sessions
  unfolding deliver_publish
  deliver_publish-offers sub cache srv h g le =
      let same : (sub.subscriber == sub.subscriber) ≡ true = ground arith in
      simp (deliver_publish, g, same, qos_covered sub.qos le, qos1_template_at cache h) refl

  qos0_payload-qos1 : (o : PublishPacket) (c : Cache) → (qos0_payload encode o c).1.qos1 ≡ c.qos1
  unfolding qos0_payload
  qos0_payload-qos1 o c = elim (Option-cases c.qos0) [
    | inr (raw, e) ↦ rw (qos0_payload, e) refl
    | inl e ↦ elim (Result-cases (encode o)) [
      | inl (raw, f) ↦ rw (qos0_payload, e, f) refl
      | inr (x, f) ↦ rw (qos0_payload, e, f) refl
    ]
  ]

  encoded_qos0-qos1 :
      (owner : ℕ) (srv : Server) (r : Result Bytes × Cache)
      → (encoded_qos0 owner srv r).1.qos1 ≡ r.1.qos1
  encoded_qos0-qos1 owner srv (err e, cache) = refl
  encoded_qos0-qos1 owner srv (ok raw, cache) = refl

  deliver_qos0-qos1 :
      (o : PublishPacket) (id : Bytes) (ref : ℕ) (cache : Cache) (srv : Server)
      → (deliver_qos0 encode o id ref cache srv).1.qos1 ≡ cache.qos1
  unfolding deliver_qos0
  deliver_qos0-qos1 o id ref cache srv = elim (Option-cases (lookup id srv.clients)) [
    | inl e ↦ rw (deliver_qos0, e) refl
    | inr (k, e) ↦
        rw (deliver_qos0, e)
          (if_rule (λ (r : Step). r.1.qos1 ≡ cache.qos1) (takes ref k) _ _
            (λ q.
              encoded_qos0-qos1 k.ref srv (qos0_payload encode o cache) ∙ qos0_payload-qos1 o cache)
            (λ q. refl))
  ]

  pub deliver_publish-IsCached :
      (sub : Route) (cache : Cache) (srv : Server)
      → IsCached cache
      → IsCached (deliver_publish encode p sub now cache srv).1
  unfolding deliver_publish
  deliver_publish-IsCached sub cache srv h = elim (Option-cases (get sub.client_id srv.sessions)) [
    | inl e ↦ rw (deliver_publish, e) h
    | inr (r, e) ↦
        rw (deliver_publish, e)
          (if_rule Fits (not (sub.subscriber == r)) _ _ (λ q. h)
            (λ q.
              if_rule Fits (delivery_qos p.qos sub.qos == 0) _ _
                (λ z.
                  subst (λ o. (o ≡ none) ⊎ (o ≡ some t))
                    (sym (deliver_qos0-qos1 (new_outbound_publish p _) sub.client_id r cache srv))
                    h)
                (λ z. rw (qos_at sub.qos z, qos1_template_at cache h) (inr refl))))
  ]
    where
      Fits : Step → Type 0
      Fits r = IsCached r.1
