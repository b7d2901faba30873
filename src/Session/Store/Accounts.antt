-- ===== src/Session/Store/Accounts.antt =====
-- internal/session/store.go: what a method of a session does to the totals of its store.
use orb_mq.Base.{ℕ, ◌+◌, ◌≤◌, bytes_Eq, nat_eq, Distinct, true, false, ◌≡◌, ◌⊎◌, [], length}
use orb_mq.Session.Limits.{Limits}
use orb_mq.Session.State.{Snapshot, State, Cell}
use orb_mq.Session.Queue.Invariant.{IsSession}

-- A session that is in the store, and one that was deleted.
pub record IsLive (l : Limits) (s : State) : Type 0 where
  pub present : s.deleted ≡ false
  pub session : IsSession l s
  pub filters : Distinct s.subscriptions
  pub room : length s.subscriptions ≤ l.max_subscriptions_per_session

pub record IsGone (s : State) : Type 0 where
  pub deleted : s.deleted ≡ true
  pub entries : s.entries ≡ []
  pub inflight : s.inflight ≡ []
  pub subscriptions : s.subscriptions ≡ []
  pub messages : s.stats.pending_messages ≡ 0
  pub bytes : s.stats.pending_bytes ≡ 0

-- The counts of a session that the totals sum up.
pub record Counts : Type 0 where
  pub messages : ℕ
  pub bytes : ℕ
  pub inflight : ℕ
  pub subscriptions : ℕ

abbrev pub counts : State → Counts
counts s = record {
  messages = s.stats.pending_messages;
  bytes = s.stats.pending_bytes;
  inflight = length s.inflight;
  subscriptions = length s.subscriptions;
}

abbrev pub total_counts : Snapshot → Counts
total_counts t = record {
  messages = t.pending_messages;
  bytes = t.pending_bytes;
  inflight = t.inflight_messages;
  subscriptions = t.subscription_count;
}

pub record IsWithin (a b : Counts) : Type 0 where
  pub messages : a.messages ≤ b.messages
  pub bytes : a.bytes ≤ b.bytes
  pub inflight : a.inflight ≤ b.inflight
  pub subscriptions : a.subscriptions ≤ b.subscriptions

-- From `t` to `t'` the totals change as the counts of a session do from `a` to `a'`.
pub record Moves (t a t' a' : Counts) : Type 0 where
  pub messages : t'.messages + a.messages ≡ t.messages + a'.messages
  pub bytes : t'.bytes + a.bytes ≡ t.bytes + a'.bytes
  pub inflight : t'.inflight + a.inflight ≡ t.inflight + a'.inflight
  pub subscriptions : t'.subscriptions + a.subscriptions ≡ t.subscriptions + a'.subscriptions

-- The limits that all sessions share.
pub record IsLimited (l : Limits) (t : Snapshot) : Type 0 where
  pub messages : t.pending_messages ≤ l.max_pending_messages_global
  pub bytes : t.pending_bytes ≤ l.max_pending_bytes_global
  pub subscriptions : t.subscription_count ≤ l.max_subscriptions_global

-- What each method of a session keeps to.
pub record Keeps (c c' : Cell) : Type 0 where
  pub limits : c'.limits ≡ c.limits
  pub id : c'.state.id ≡ c.state.id
  pub owner : c'.state.owner ≡ c.state.owner
  pub deleted : c'.state.deleted ≡ c.state.deleted
  pub moves :
      Moves (total_counts c.totals) (counts c.state) (total_counts c'.totals) (counts c'.state)
  pub live : IsLive c.limits c.state → IsLive c.limits c'.state
  pub gone : IsGone c.state → IsGone c'.state
  pub limited : IsLimited c.limits c.totals → IsLimited c.limits c'.totals

-- A method keeps to that in a store whose totals hold the session's counts. A session that is
-- neither live nor deleted does not occur.
abbrev pub IsMethod : (Cell → Cell) → Type 0
IsMethod f =
    (c : Cell)
    → IsWithin (counts c.state) (total_counts c.totals)
    → IsLive c.limits c.state ⊎ IsGone c.state
    → Keeps c (f c)
