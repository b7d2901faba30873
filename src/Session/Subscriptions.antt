-- ===== src/Session/Subscriptions.antt =====
-- internal/session/store.go: the methods of a session that concern its subscriptions and its
-- connection. Each reads and writes a `Cell`, under the lock of the store.
use orb_mq.Base.{
  ℕ, ◌+◌, ◌-◌, Bytes, bytes_Eq, Map, lookup, insert, delete, Bool, true, false, not, ◌&&◌, ◌||◌,
  ltb, leb, ◌==◌, if◌then◌else◌, [], ◌∷◌, none, some, length,
}
use orb_mq.Session.Limits.{Limits}
use orb_mq.Session.State.{State, Cell, next64}
use orb_mq.Topic.Parse.Split.{count_slashes}

-- What SetSubscription returns; `accepted` is a nil error.
pub data Grant : Type 0 where
  accepted session_removed filter_limit subscription_limit : Grant

-- The filter is longer, or has more levels, than the limits allow.
unfoldable pub is_long_filter : Limits → Bytes → Bool
is_long_filter l filter =
    ltb l.max_filter_bytes (length filter) || leb l.max_filter_levels (count_slashes filter)

unfoldable pub is_subscribed : Bytes → State → Bool
is_subscribed filter s = elim (lookup filter s.subscriptions) [ none ↦ false | some qos ↦ true ]

-- No room for one more subscription.
unfoldable pub is_full : Cell → Bool
is_full c =
    leb c.limits.max_subscriptions_per_session (length c.state.subscriptions)
    || leb c.limits.max_subscriptions_global c.totals.subscription_count

abbrev pub reject_filter : Cell → Cell
reject_filter c = record c {
  totals = record c.totals { filter_rejections = next64 c.totals.filter_rejections };
}

abbrev pub reject_subscription : Cell → Cell
reject_subscription c = record c {
  totals = record c.totals { subscription_rejections = next64 c.totals.subscription_rejections };
}

-- `s.subscriptions[filter] = qos`, where `added` more subscriptions are counted.
abbrev pub store_subscription : Bytes → ℕ → ℕ → Cell → Cell
store_subscription filter qos added c = record c {
  totals = record c.totals { subscription_count = c.totals.subscription_count + added };
  state = record c.state { subscriptions = insert filter qos c.state.subscriptions };
}

-- `SetSubscription`
unfoldable pub set_subscription : Bytes → ℕ → Cell → Grant × Cell
set_subscription filter qos c =
    if c.state.deleted
    then (session_removed, c)
    else if is_long_filter c.limits filter
    then (filter_limit, reject_filter c)
    else if is_subscribed filter c.state
    then (accepted, store_subscription filter qos 0 c)
    else if is_full c
    then (subscription_limit, reject_subscription c)
    else (accepted, store_subscription filter qos 1 c)

-- `DeleteSubscription`
unfoldable pub delete_subscription : Bytes → Cell → Cell
delete_subscription filter c =
    if is_subscribed filter c.state
    then record c {
      totals = record c.totals { subscription_count = c.totals.subscription_count - 1 };
      state = record c.state { subscriptions = delete filter c.state.subscriptions };
    }
    else c

-- `MarkConnected`; 0 is the zero time.
unfoldable pub mark_connected : State → State
mark_connected s = if s.deleted then s else record s { connected = true; offline_since = 0 }

-- `MarkDisconnectedAt`
unfoldable pub mark_disconnected_at : ℕ → State → State
mark_disconnected_at at s =
    if not s.deleted && s.connected then record s { connected = false; offline_since = at } else s

-- `cmp.Compare` on strings, as "not after".
unfoldable pub bytes_leb : Bytes → Bytes → Bool
bytes_leb [] ys = true
bytes_leb (x ∷ xs) [] = false
bytes_leb (x ∷ xs) (y ∷ ys) = if x == y then bytes_leb xs ys else ltb x y

unfoldable pub insert_sorted : Bytes × ℕ → Map Bytes ℕ → Map Bytes ℕ
insert_sorted p [] = p ∷ []
insert_sorted p (q ∷ m) = if bytes_leb p.0 q.0 then p ∷ q ∷ m else q ∷ insert_sorted p m

-- `SnapshotSubscriptions`: the map in the order of its filters, which are all different.
unfoldable pub snapshot_subscriptions : Map Bytes ℕ → Map Bytes ℕ
snapshot_subscriptions [] = []
snapshot_subscriptions (p ∷ m) = insert_sorted p (snapshot_subscriptions m)
