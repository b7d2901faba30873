-- ===== src/Session/Store/Reachable.antt =====
-- internal/session: the states that calls on a store and on its sessions lead to.
use orb_mq.Base.{
  ℕ, ◌+◌, ◌<◌, ◌^◌, Bytes, nat_eq, lookup, Option-cases, ◌≡◌, refl, inl, inr, none, some,
}
use orb_mq.Session.Limits.{Limits}
use orb_mq.Session.State.{State, Cell}
use orb_mq.Session.Queue.{admit, next, ack, begin_delivery, pause_delivery, resume_delivery}
use orb_mq.Session.Subscriptions.{
  set_subscription, delete_subscription, mark_connected, mark_disconnected_at,
}
use orb_mq.Session.Store.{
  Store, new_store, cell_of, put_cell, call, on_state, get_or_create_owned, delete_session, expire,
  expire_session,
}
use orb_mq.Session.Store.Accounts.{IsMethod}
use orb_mq.Session.Store.Deliveries.{
  admit-Keeps, next-Keeps, ack-Keeps, begin_delivery-Keeps, pause_delivery-Keeps,
  resume_delivery-Keeps,
}
use orb_mq.Session.Store.Methods.{
  set_subscription-Keeps, delete_subscription-Keeps, mark_connected-Keeps,
  mark_disconnected_at-Keeps,
}
use orb_mq.Session.Store.Invariant.{IsStore, put_cell-IsStore, IsWithin-totals}
use orb_mq.Session.Store.Lifetimes.{
  get_or_create_owned-IsStore, delete_session-IsStore, expire-IsStore, expire_session-IsStore,
  new_store-IsStore,
}

-- The methods of a session, with their arguments.
pub data Method : (Cell → Cell) → Type 0 where
  admits : (packet : Bytes) (offset now : ℕ) → Method (λ c. (admit packet offset now c).1)
  selects_next : (epoch : ℕ) → Method (λ c. (next epoch c).1)
  acknowledges : (id : ℕ) → Method (ack id)
  pauses : Method (on_state pause_delivery)
  resumes : Method (on_state resume_delivery)
  subscribes : (filter : Bytes) (qos : ℕ) → Method (λ c. (set_subscription filter qos c).1)
  unsubscribes : (filter : Bytes) → Method (delete_subscription filter)
  connects : Method (on_state mark_connected)
  disconnects : (at : ℕ) → Method (on_state (mark_disconnected_at at))

pub Method-Keeps : {f : Cell → Cell} → Method f → IsMethod f
Method-Keeps (admits packet offset now) c w h = admit-Keeps packet offset now c
Method-Keeps (selects_next epoch) c w h = next-Keeps epoch c
Method-Keeps (acknowledges id) c w h = ack-Keeps id c w h
Method-Keeps pauses c w h = pause_delivery-Keeps c
Method-Keeps resumes c w h = resume_delivery-Keeps c
Method-Keeps (subscribes filter qos) c w h = set_subscription-Keeps filter qos c
Method-Keeps (unsubscribes filter) c w h = delete_subscription-Keeps filter c w h
Method-Keeps connects c w h = mark_connected-Keeps c
Method-Keeps (disconnects at) c w h = mark_disconnected_at-Keeps at c

-- Any sequence of calls, on whichever sessions, from a new store. An epoch is a uint64, and its
-- increment does not wrap.
pub data Reachable : Store → Type 0 where
  started : (l : Limits) (st : Store) → new_store l ≡ some st → Reachable st
  opens :
      {st : Store} (id owner : Bytes) (now : ℕ)
      → Reachable st
      → Reachable (get_or_create_owned id owner now st).1
  deletes : {st : Store} (id : Bytes) → Reachable st → Reachable (delete_session id st)
  expires : {st : Store} (now : ℕ) → Reachable st → Reachable (expire now st).1
  expires_one :
      {st : Store} (id : Bytes) (now : ℕ) → Reachable st → Reachable (expire_session id now st).1
  calls :
      {st : Store} (f : Cell → Cell) (ref : ℕ) → Method f → Reachable st → Reachable (call f ref st)
  begins :
      {st : Store} (ref : ℕ) (s : State)
      → lookup ref st.states ≡ some s
      → s.epoch + 1 < 2 ^ 64
      → Reachable st
      → Reachable (call (on_state (λ t. (begin_delivery t).1)) ref st)

pub call_at :
    (f : Cell → Cell) (ref : ℕ) (s : State) (st : Store)
    → lookup ref st.states ≡ some s
    → call f ref st ≡ put_cell ref (f (cell_of st s)) st
unfolding call orb_mq.Base.insert
call_at f ref s st e = rw (call, e) refl

pub call-IsStore :
    (f : Cell → Cell) (ref : ℕ) (st : Store) → IsMethod f → IsStore st → IsStore (call f ref st)
unfolding call
call-IsStore f ref st k v = elim (Option-cases (lookup ref st.states)) [
  | inl e ↦ rw (call, e) v
  | inr (s, e) ↦ rw (call_at f ref s st e) (
      put_cell-IsStore st ref s (f (cell_of st s)) v e
        (k (cell_of st s) (IsWithin-totals st ref s v e) (v.objects ref s e)))
]

-- In every state that calls lead to from a new store, the totals are the sums over the sessions and
-- within the limits, each session is deleted or has its own invariant, and the map of sessions
-- names exactly those that are not deleted.
pub Reachable-IsStore : (st : Store) → Reachable st → IsStore st
Reachable-IsStore _ (started l st e) = new_store-IsStore l st e
Reachable-IsStore _ (opens {st} id owner now r) =
    get_or_create_owned-IsStore id owner now st (Reachable-IsStore st r)
Reachable-IsStore _ (deletes {st} id r) = delete_session-IsStore id st (Reachable-IsStore st r)
Reachable-IsStore _ (expires {st} now r) = expire-IsStore now st (Reachable-IsStore st r)
Reachable-IsStore _ (expires_one {st} id now r) =
    expire_session-IsStore id now st (Reachable-IsStore st r)
Reachable-IsStore _ (calls {st} f ref m r) =
    call-IsStore f ref st (Method-Keeps m) (Reachable-IsStore st r)
Reachable-IsStore _ (begins {st} ref s e lt r) =
    rw (call_at (on_state (λ t. (begin_delivery t).1)) ref s st e) (
      put_cell-IsStore st ref s _ (Reachable-IsStore st r) e
        (begin_delivery-Keeps (cell_of st s) lt))
