-- ===== src/Session/Store/Deliveries.antt =====
-- internal/session/queue.go: the methods of the delivery queue, and the totals of the store.
use orb_mq.Base.{
  ℕ, suc, ◌+◌, ◌≤◌, ◌<◌, ◌^◌, Bytes, bytes_Eq, nat_eq, lookup, lookup_nil, insert, Distinct,
  length-insert, length-delete, Bool, Bool-cases, Option-cases, true, false, ◌≡◌, inl, inr, refl,
  arith, List, [], ◌∷◌, ◌++◌, length-append, none, some, length, ◌==◌, subst, sym, ap, ◌∙◌,
}
use orb_mq.Session.Limits.{Limits}
use orb_mq.Session.State.{Entry, State, Cell}
use orb_mq.Session.Queue.{
  DropReason, session_limit, global_limit, is_queued_publish, drop_reason, enqueue, refuse, admit,
  free_id, id_fuel, replay_entry, send_entry, next, find_entry, acknowledge, ack, begin_delivery,
  pause_delivery, resume_delivery,
}
use orb_mq.Session.Queue.Entries.{length-remove_entry, total_bytes-remove_entry}
use orb_mq.Session.Queue.Ids.{free_id_sound}
use orb_mq.Session.Queue.Invariant.{
  IsSession, drop_reason-none, admit_room, admit_full, enqueue-IsSession, drop-IsSession,
  begin_delivery-IsSession,
}
use orb_mq.Session.Queue.Selects.{idle, selects, next_cases, next-IsSession}
use orb_mq.Session.Queue.Acknowledge.{
  inflight_entry_inv, inflight_entry_in_queue, ack_cases, ack-IsSession,
}
use orb_mq.Session.Store.{on_state}
use orb_mq.Session.Store.Accounts.{
  IsLive, IsGone, counts, total_counts, IsWithin, Moves, Keeps, IsMethod,
}

pub Keeps-refl : (c : Cell) → Keeps c c
Keeps-refl c = record {
  limits = refl;
  id = refl;
  owner = refl;
  deleted = refl;
  moves = record { messages = refl; bytes = refl; inflight = refl; subscriptions = refl };
  live = λ h. h;
  gone = λ h. h;
  limited = λ h. h;
}

-- A session stays live where its subscriptions are left alone.
pub IsLive-as :
    (l : Limits) (s s' : State)
    → s'.deleted ≡ s.deleted
    → s'.subscriptions ≡ s.subscriptions
    → (IsSession l s → IsSession l s')
    → IsLive l s
    → IsLive l s'
IsLive-as l s s' d f g v = record {
  present = d ∙ v.present;
  session = g v.session;
  filters = subst Distinct (sym f) v.filters;
  room = subst (λ m. length m ≤ l.max_subscriptions_per_session) (sym f) v.room;
}

-- A method that leaves the counts alone.
pub quiet-Keeps :
    (c c' : Cell)
    → c'.limits ≡ c.limits
    → (c'.state.id ≡ c.state.id)
      × (c'.state.owner ≡ c.state.owner)
      × (c'.state.deleted ≡ c.state.deleted)
    → c'.state.subscriptions ≡ c.state.subscriptions
    → total_counts c'.totals ≡ total_counts c.totals
    → counts c'.state ≡ counts c.state
    → (IsSession c.limits c.state → IsSession c.limits c'.state)
    → (IsGone c.state → (c'.state.entries ≡ []) × (c'.state.inflight ≡ []))
    → Keeps c c'
quiet-Keeps c c' l (i, o, d) f t n session gone = record {
  limits = l;
  id = i;
  owner = o;
  deleted = d;
  moves =
      subst (λ x. Moves (total_counts c.totals) (counts c.state) x (counts c'.state)) (sym t)
        (subst (λ x. Moves (total_counts c.totals) (counts c.state) (total_counts c.totals) x)
          (sym n)
          (record { messages = refl; bytes = refl; inflight = refl; subscriptions = refl }));
  live = IsLive-as c.limits c.state c'.state d f session;
  gone = λ g. record {
    deleted = d ∙ g.deleted;
    entries = (gone g).0;
    inflight = (gone g).1;
    subscriptions = f ∙ g.subscriptions;
    messages = ap (λ x. x.messages) n ∙ g.messages;
    bytes = ap (λ x. x.bytes) n ∙ g.bytes;
  };
  limited = λ h. record {
    messages = omega (arith, ap (λ x. x.messages) t, h.messages);
    bytes = omega (arith, ap (λ x. x.bytes) t, h.bytes);
    subscriptions = omega (arith, ap (λ x. x.subscriptions) t, h.subscriptions);
  };
}

refuse-Keeps : (c : Cell) (reason : DropReason) → Keeps c (refuse c reason)
refuse-Keeps c session_limit =
    quiet-Keeps c _ refl (refl, refl, refl) refl refl refl (drop-IsSession session_limit c)
      (λ g. (g.entries, g.inflight))
refuse-Keeps c global_limit =
    quiet-Keeps c _ refl (refl, refl, refl) refl refl refl (drop-IsSession global_limit c)
      (λ g. (g.entries, g.inflight))

enqueue-Keeps :
    (c : Cell) (packet : Bytes) (offset now : ℕ)
    → is_queued_publish packet offset ≡ true
    → c.state.deleted ≡ false
    → drop_reason c.limits c.state.stats c.totals (length packet) ≡ none
    → Keeps c (enqueue c packet offset now)
enqueue-Keeps c packet offset now q d e =
    let room = drop_reason-none c.limits c.state.stats c.totals (length packet) e in
    record {
      limits = refl;
      id = refl;
      owner = refl;
      deleted = refl;
      moves = omega arith;
      live =
          IsLive-as c.limits c.state _ refl refl (λ v. enqueue-IsSession c packet offset now q v e);
      gone = λ g. cc (d, g.deleted);
      limited = λ h. record {
        messages = omega (arith, room);
        bytes = omega (arith, room);
        subscriptions = h.subscriptions;
      };
    }

pub admit-Keeps :
    (packet : Bytes) (offset now : ℕ) (c : Cell) → Keeps c (admit packet offset now c).1
admit-Keeps packet offset now c = elim (Bool-cases (is_queued_publish packet offset)) [
  | inr q ↦ unfold admit in rw q (Keeps-refl c)
  | inl q ↦ elim (Bool-cases c.state.deleted) [
    | inl d ↦ unfold admit in simp (q, d) (Keeps-refl c)
    | inr d ↦ elim (Option-cases (drop_reason c.limits c.state.stats c.totals (length packet))) [
      | inl e ↦ rw (admit_room packet offset now c q d e) (enqueue-Keeps c packet offset now q d e)
      | inr (r, e) ↦ rw (admit_full packet offset now c r q d e) (refuse-Keeps c r)
    ]
  ]
]

length-middle :
    (before : List Entry) (m : Entry) (after : List Entry) → before ++ m ∷ after ≡ [] → ⊥
length-middle before m after e = omega (arith, ap length e, length-append before (m ∷ after))

-- The two halves of `Next`, at an entry of the queue.
module _ (c : Cell) (before : List Entry) (m : Entry) (after : List Entry)
    (split : c.state.entries ≡ before ++ m ∷ after) where
  not-IsGone : ¬ IsGone c.state
  not-IsGone g = length-middle before m after (sym split ∙ g.entries)

  replay-Keeps :
      (IsSession c.limits c.state → IsSession c.limits (replay_entry c before m after).1.state)
      → Keeps c (replay_entry c before m after).1
  unfolding replay_entry
  replay-Keeps session =
      quiet-Keeps c _ refl (refl, refl, refl) refl refl refl session (λ g. absurd (not-IsGone g))

  send-Keeps :
      (IsSession c.limits c.state → IsSession c.limits (send_entry c before m after).1.state)
      → Keeps c (send_entry c before m after).1
  unfolding send_entry
  send-Keeps session =
      elim (Option-cases (free_id id_fuel c.state.inflight c.state.next_packet_id)) [
        | inl e ↦ rw (e, send_entry) (Keeps-refl c)
        | inr (k, e) ↦
            let (absent, lt, nz) =
              free_id_sound id_fuel c.state.inflight c.state.next_packet_id k e in
            let more : length (insert k m.ref c.state.inflight) ≡ suc (length c.state.inflight) =
              rw absent at (length-insert k m.ref c.state.inflight) in
            rw (e, send_entry)
              (record {
                limits = refl;
                id = refl;
                owner = refl;
                deleted = refl;
                moves = omega (arith, more);
                live = IsLive-as c.limits c.state _ refl refl (rw (e, send_entry) at session);
                gone = λ g. absurd (not-IsGone g);
                limited = λ h. record {
                  messages = h.messages;
                  bytes = h.bytes;
                  subscriptions = h.subscriptions;
                };
              })
      ]

pub next-Keeps : (epoch : ℕ) (c : Cell) → Keeps c (next epoch c).1
next-Keeps epoch c = elim (next_cases epoch c) [
  | idle e ↦ rw e (Keeps-refl c)
  | selects before m after split all one room e ↦ elim (Bool-cases (m.packet_id == 0)) [
    | inl z ↦ rw (e, z) (send-Keeps c before m after split (rw (e, z) at (next-IsSession epoch c)))
    | inr z ↦
        rw (e, z) (replay-Keeps c before m after split (rw (e, z) at (next-IsSession epoch c)))
  ]
]

acknowledge-Moves :
    (c : Cell) (id : ℕ) (m : Entry)
    → IsSession c.limits c.state
    → IsWithin (counts c.state) (total_counts c.totals)
    → find_entry m.ref c.state.entries ≡ some m
    → m.packet_id ≡ id
    → (r : ℕ) → lookup id c.state.inflight ≡ some r
    → Moves
        (total_counts c.totals)
        (counts c.state)
        (total_counts (acknowledge id m c).totals)
        (counts (acknowledge id m c).state)
acknowledge-Moves c id m v w f p r e =
    let shorter = length-remove_entry m.ref c.state.entries m f in
    let lighter = total_bytes-remove_entry m.ref c.state.entries m f in
    let fewer = length-delete id r c.state.inflight (subst Distinct (sym v.in_flight) v.ids) e in
    record {
      messages = omega (arith, v.messages, shorter, w.messages);
      bytes = omega (arith, v.bytes, lighter, w.bytes);
      inflight = omega (arith, fewer, w.inflight);
      subscriptions = refl;
    }

pub ack-Keeps : (id : ℕ) → IsMethod (ack id)
ack-Keeps id c w (inr g) = elim (ack_cases id c) [
  | inl e ↦ rw e (Keeps-refl c)
  | inr (m, e, q) ↦
      let (ref, look, f) = inflight_entry_inv id c.state m e in
      absurd (nothing_in_flight ref (rw g.inflight at look))
]
  where
    nothing_in_flight : (ref : ℕ) → ¬ (lookup {V = ℕ} id [] ≡ some ref)
    nothing_in_flight ref h = cc (lookup_nil {V = ℕ} id)
ack-Keeps id c w (inl v) = elim (ack_cases id c) [
  | inl e ↦ rw e (Keeps-refl c)
  | inr (m, e, q) ↦
      let (ref, look, f) = inflight_entry_inv id c.state m e in
      let (g, p, z) = inflight_entry_in_queue c.limits c.state id m v.session e in
      let moves = acknowledge-Moves c id m v.session w g p ref look in
      rw q (record {
        limits = refl;
        id = refl;
        owner = refl;
        deleted = refl;
        moves = moves;
        live = IsLive-as c.limits c.state _ refl refl (λ s. rw q at (ack-IsSession id c s));
        gone = λ gone. cc (v.present, gone.deleted);
        limited = λ h. record {
          messages = omega (arith, h.messages);
          bytes = omega (arith, h.bytes);
          subscriptions = h.subscriptions;
        };
      })
]

pub begin_delivery-Keeps :
    (c : Cell) → c.state.epoch + 1 < 2 ^ 64 → Keeps c (on_state (λ s. (begin_delivery s).1) c)
unfolding begin_delivery
begin_delivery-Keeps c lt =
    quiet-Keeps c _ refl (refl, refl, refl) refl refl refl
      (unfold begin_delivery in begin_delivery-IsSession c.limits c.state lt)
      (λ g. (g.entries, g.inflight))

-- The session's invariant is about neither flag.
flags-IsSession :
    (l : Limits) (s : State) (paused changed connected : Bool) (offline_since : ℕ)
    → IsSession l s
    → IsSession l (record s {
      paused = paused;
      changed = changed;
      connected = connected;
      offline_since = offline_since;
    })
flags-IsSession l s p h n o v = record {
  messages = v.messages;
  bytes = v.bytes;
  messages_bound = v.messages_bound;
  bytes_bound = v.bytes_bound;
  entries_ok = v.entries_ok;
  in_flight = v.in_flight;
  ids = v.ids;
  active = v.active;
  ordered = v.ordered;
  window = v.window;
  epoch_range = v.epoch_range;
  last_id = v.last_id;
}

pub flags-Keeps :
    (c : Cell) (paused changed connected : Bool) (offline_since : ℕ)
    → Keeps c (
        on_state
          (λ s. record s {
            paused = paused;
            changed = changed;
            connected = connected;
            offline_since = offline_since;
          })
          c)
flags-Keeps c p h n o =
    quiet-Keeps c _ refl (refl, refl, refl) refl refl refl
      (flags-IsSession c.limits c.state p h n o) (λ g. (g.entries, g.inflight))

pub pause_delivery-Keeps : (c : Cell) → Keeps c (on_state pause_delivery c)
unfolding pause_delivery
pause_delivery-Keeps c = flags-Keeps c true c.state.changed c.state.connected c.state.offline_since

pub resume_delivery-Keeps : (c : Cell) → Keeps c (on_state resume_delivery c)
unfolding resume_delivery
resume_delivery-Keeps c = flags-Keeps c false true c.state.connected c.state.offline_since
