-- ===== src/Session/Store/Methods.antt =====
-- internal/session/store.go: the methods for subscriptions and connections, and the store's totals.
use orb_mq.Base.{
  ℕ, suc, ◌+◌, ◌-◌, ◌≤◌, ◌<◌, Bytes, bytes_Eq, Map, lookup, insert, delete, Distinct,
  Distinct-insert, Distinct-delete, length-insert, length-delete, lookup_nil, Bool-cases, if_rule,
  Option-cases, true, false, not, ◌&&◌, ◌≡◌, inl, inr, refl, arith, none, some, length,
}
use orb_mq.Session.Limits.{Limits}
use orb_mq.Session.State.{Snapshot, State, Cell}
use orb_mq.Session.Subscriptions.{
  Grant, is_long_filter, is_subscribed, is_full, store_subscription, set_subscription,
  delete_subscription, mark_connected, mark_disconnected_at,
}
use orb_mq.Session.Queue.Invariant.{IsSession}
use orb_mq.Session.Store.{on_state}
use orb_mq.Session.Store.Accounts.{IsLive, total_counts, IsLimited, Keeps, IsMethod}
use orb_mq.Session.Store.Deliveries.{Keeps-refl, quiet-Keeps, flags-Keeps}

is_subscribed_inv :
    (filter : Bytes) (s : State)
    → is_subscribed filter s ≡ true
    → (qos : ℕ) × (lookup filter s.subscriptions ≡ some qos)
unfolding is_subscribed
is_subscribed_inv filter s h = elim (Option-cases (lookup filter s.subscriptions)) [
  | inl e ↦ cc (rw (e, is_subscribed) at h)
  | inr q ↦ q
]

is_unsubscribed_inv :
    (filter : Bytes) (s : State)
    → is_subscribed filter s ≡ false
    → lookup filter s.subscriptions ≡ none
unfolding is_subscribed
is_unsubscribed_inv filter s h = elim (Option-cases (lookup filter s.subscriptions)) [
  | inl e ↦ e
  | inr (q, e) ↦ cc (rw (e, is_subscribed) at h)
]

-- Neither the queue nor its limits know the subscriptions.
subscriptions-IsSession :
    (l : Limits) (s : State) (m : Map Bytes ℕ)
    → IsSession l s
    → IsSession l (record s { subscriptions = m })
subscriptions-IsSession l s m v = record {
  messages = v.messages;
  bytes = v.bytes;
  messages_bound = v.messages_bound;
  bytes_bound = v.bytes_bound;
  entries_ok = v.entries_ok;
  in_flight = v.in_flight;
  ids = v.ids;
  active = v.active;
  ordered = v.ordered;
  window = v.window;
  epoch_range = v.epoch_range;
  last_id = v.last_id;
}

-- A subscription map that is one of a live session, and the total that goes with it.
subscribed-Keeps :
    (c : Cell) (m : Map Bytes ℕ) (n : ℕ)
    → c.state.deleted ≡ false
    → n + length c.state.subscriptions ≡ c.totals.subscription_count + length m
    → (IsLive c.limits c.state → Distinct m × (length m ≤ c.limits.max_subscriptions_per_session))
    → (IsLimited c.limits c.totals → n ≤ c.limits.max_subscriptions_global)
    → Keeps c (record c {
      totals = record c.totals { subscription_count = n };
      state = record c.state { subscriptions = m };
    })
subscribed-Keeps c m n d count fits limited = record {
  limits = refl;
  id = refl;
  owner = refl;
  deleted = refl;
  moves = record { messages = refl; bytes = refl; inflight = refl; subscriptions = count };
  live = λ v. record {
    present = v.present;
    session = subscriptions-IsSession c.limits c.state m v.session;
    filters = (fits v).0;
    room = (fits v).1;
  };
  gone = λ g. cc (d, g.deleted);
  limited = λ h. record { messages = h.messages; bytes = h.bytes; subscriptions = limited h };
}

replaced-Keeps :
    (filter : Bytes) (qos : ℕ) (c : Cell)
    → c.state.deleted ≡ false
    → is_subscribed filter c.state ≡ true
    → Keeps c (store_subscription filter qos 0 c)
replaced-Keeps filter qos c d h =
    let m = c.state.subscriptions in
    let (old, e) = is_subscribed_inv filter c.state h in
    let same : length (insert filter qos m) ≡ length m = rw e at (length-insert filter qos m) in
    subscribed-Keeps c (insert filter qos m) (c.totals.subscription_count + 0) d
      (omega (arith, same))
      (λ v. (Distinct-insert filter qos m v.filters, omega (arith, same, v.room)))
      (λ h. omega (arith, h.subscriptions))

added-Keeps :
    (filter : Bytes) (qos : ℕ) (c : Cell)
    → c.state.deleted ≡ false
    → is_subscribed filter c.state ≡ false
    → is_full c ≡ false
    → Keeps c (store_subscription filter qos 1 c)
unfolding is_full
added-Keeps filter qos c d h f =
    let m = c.state.subscriptions in
    let room : (length m < c.limits.max_subscriptions_per_session)
        × (c.totals.subscription_count < c.limits.max_subscriptions_global) =
      (ground arith, ground arith) in
    let more : length (insert filter qos m) ≡ suc (length m) =
      rw (is_unsubscribed_inv filter c.state h) at (length-insert filter qos m) in
    subscribed-Keeps c (insert filter qos m) (c.totals.subscription_count + 1) d
      (omega (arith, more))
      (λ v. (Distinct-insert filter qos m v.filters, omega (arith, more, room)))
      (λ h. omega (arith, room))

-- Where SetSubscription refuses, only a counter of refusals changes.
rejected-Keeps :
    (c : Cell) (t : Snapshot)
    → total_counts t ≡ total_counts c.totals
    → Keeps c (record c { totals = t })
rejected-Keeps c t e =
    quiet-Keeps c _ refl (refl, refl, refl) refl e refl (λ v. v) (λ g. (g.entries, g.inflight))

pub set_subscription-Keeps :
    (filter : Bytes) (qos : ℕ) (c : Cell) → Keeps c (set_subscription filter qos c).1
unfolding set_subscription
set_subscription-Keeps filter qos c =
    if_rule P c.state.deleted _ _ (λ d. Keeps-refl c)
      (λ d.
        if_rule P (is_long_filter c.limits filter) _ _ (λ l. rejected-Keeps c _ refl)
          (λ l.
            if_rule P (is_subscribed filter c.state) _ _ (λ q. replaced-Keeps filter qos c d q)
              (λ q.
                if_rule P (is_full c) _ _ (λ f. rejected-Keeps c _ refl)
                  (λ f. added-Keeps filter qos c d q f))))
  where
    P : Grant × Cell → Type 0
    P r = Keeps c r.1

pub delete_subscription-Keeps : (filter : Bytes) → IsMethod (delete_subscription filter)
unfolding delete_subscription
delete_subscription-Keeps filter c w (inr g) = elim (Bool-cases (is_subscribed filter c.state)) [
  | inl q ↦
      let (old, e) = is_subscribed_inv filter c.state q in
      cc (rw g.subscriptions at e, lookup_nil {V = ℕ} filter)
  | inr q ↦ simp q (Keeps-refl c)
]
delete_subscription-Keeps filter c w (inl v) = elim (Bool-cases (is_subscribed filter c.state)) [
  | inl q ↦
      let m = c.state.subscriptions in
      let (old, e) = is_subscribed_inv filter c.state q in
      let fewer = length-delete filter old m v.filters e in
      simp q (
        subscribed-Keeps c (delete filter m) (c.totals.subscription_count - 1) v.present
          (omega (arith, fewer, w.subscriptions))
          (λ v. (Distinct-delete filter m v.filters, omega (arith, fewer, v.room)))
          (λ h. omega (arith, h.subscriptions)))
  | inr q ↦ simp q (Keeps-refl c)
]

pub mark_connected-Keeps : (c : Cell) → Keeps c (on_state mark_connected c)
unfolding mark_connected
mark_connected-Keeps c =
    if_rule (λ s. Keeps c (record c { state = s })) c.state.deleted _ _ (λ d. Keeps-refl c)
      (λ d. flags-Keeps c c.state.paused c.state.changed true 0)

pub mark_disconnected_at-Keeps :
    (at : ℕ) (c : Cell) → Keeps c (on_state (mark_disconnected_at at) c)
unfolding mark_disconnected_at
mark_disconnected_at-Keeps at c =
    if_rule (λ s. Keeps c (record c { state = s })) (not c.state.deleted && c.state.connected) _ _
      (λ d. flags-Keeps c c.state.paused c.state.changed false at) (λ d. Keeps-refl c)
