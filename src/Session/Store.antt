-- ===== src/Session/Store.antt =====
-- internal/session/store.go: the map of sessions, and the totals that all of them share.
-- A session is a pointer, which a connection or a subscription may keep after the session was
-- deleted: the sessions stand in a heap, and the map holds addresses.
pub mod Accounts
pub mod Methods
pub mod Deliveries
pub mod Invariant
pub mod Lifetimes
pub mod Reachable
use orb_mq.Base.{
  ℕ, ◌+◌, ◌-◌, Bytes, bytes_eq, bytes_Eq, nat_eq, Map, lookup, insert, delete, Bool, true, false,
  not, ◌&&◌, ◌||◌, ltb, leb, ◌==◌, if◌then◌else◌, List, [], ◌∷◌, Option, none, some, length,
}
use orb_mq.Session.Limits.{Limits, validate}
use orb_mq.Session.State.{Snapshot, Entry, State, Cell, next64}
use orb_mq.Session.Queue.{notify}

-- `states` is the heap, and `next_state` the address of the next session.
pub record Store : Type 0 where
  pub by_id : Map Bytes ℕ
  pub states : Map ℕ State
  pub limits : Limits
  pub totals : Snapshot
  pub next_state : ℕ

abbrev pub no_counts : Snapshot
no_counts = record {
  session_count = 0;
  subscription_count = 0;
  session_rejections = 0;
  subscription_rejections = 0;
  filter_rejections = 0;
  expired_sessions = 0;
  pending_messages = 0;
  pending_bytes = 0;
  inflight_messages = 0;
  session_limit_drops = 0;
  global_limit_drops = 0;
  oldest_pending_age = 0;
}

-- `NewWithLimits`; `none` is its error.
unfoldable pub new_store : Limits → Option Store
new_store l = elim (validate l) [
  | some e ↦ none
  | none ↦ some (record { by_id = []; states = []; limits = l; totals = no_counts; next_state = 0 })
]

-- The session at an address, with what the store shares.
abbrev pub cell_of : Store → State → Cell
cell_of st s = record { limits = st.limits; totals = st.totals; state = s }

-- What a method of the session at `ref` leaves.
abbrev pub put_cell : ℕ → Cell → Store → Store
put_cell ref c st = record st { states = insert ref c.state st.states; totals = c.totals }

-- A call of a method on the session at `ref`. A pointer always leads to a session.
unfoldable pub call : (Cell → Cell) → ℕ → Store → Store
call method ref st = elim (lookup ref st.states) [
  | none ↦ st
  | some s ↦ put_cell ref (method (cell_of st s)) st
]

-- A method that leaves the totals alone.
abbrev pub on_state : (State → State) → Cell → Cell
on_state f c = record c { state = f c.state }

-- `Get`
unfoldable pub get : Bytes → Store → Option ℕ
get id st = lookup id st.by_id

-- What GetOrCreateOwned returns: the session and whether it was there, or an error.
pub data Opening : Type 0 where
  opened : ℕ → Bool → Opening
  session_owner session_limit : Opening

abbrev pub new_state : Bytes → Bytes → ℕ → State
new_state id owner now = record {
  id = id;
  owner = owner;
  deleted = false;
  subscriptions = [];
  entries = [];
  inflight = [];
  next_packet_id = 0;
  epoch = 0;
  active_inflight = 0;
  paused = false;
  changed = false;
  stats = no_counts;
  connected = false;
  offline_since = now;
  next_ref = 0;
}

abbrev pub create : Bytes → Bytes → ℕ → Store → Store
create id owner now st = record st {
  by_id = insert id st.next_state st.by_id;
  states = insert st.next_state (new_state id owner now) st.states;
  next_state = st.next_state + 1;
}

-- The owner of the session at an address.
unfoldable pub owner_of : ℕ → Store → Bytes
owner_of ref st = elim (lookup ref st.states) [ none ↦ [] | some s ↦ s.owner ]

-- `GetOrCreateOwned`
unfoldable pub get_or_create_owned : Bytes → Bytes → ℕ → Store → Opening × Store
get_or_create_owned id owner now st = elim (lookup id st.by_id) [
  | some ref ↦
      if not (bytes_eq (owner_of ref st) owner) then (session_owner, st) else (opened ref true, st)
  | none ↦
      if leb st.limits.max_sessions (length st.by_id)
      then (
        session_limit,
        record st {
          totals = record st.totals { session_rejections = next64 st.totals.session_rejections };
        },
      )
      else (opened st.next_state false, create id owner now st)
]

-- The totals without a session that goes.
abbrev pub release : State → Snapshot → Snapshot
release s t = record t {
  pending_messages = t.pending_messages - s.stats.pending_messages;
  pending_bytes = t.pending_bytes - s.stats.pending_bytes;
  inflight_messages = t.inflight_messages - length s.inflight;
  subscription_count = t.subscription_count - length s.subscriptions;
}

abbrev pub removed : State → State
removed s = notify (record s {
  deleted = true;
  entries = [];
  inflight = [];
  subscriptions = [];
  stats = record s.stats { pending_messages = 0; pending_bytes = 0 };
})

abbrev pub remove : Bytes → ℕ → State → Store → Store
remove id ref s st = record st {
  by_id = delete id st.by_id;
  states = insert ref (removed s) st.states;
  totals = release s st.totals;
}

-- The session of an identifier, with its address.
unfoldable pub find : Bytes → Store → Option (ℕ × State)
find id st = elim (lookup id st.by_id) [
  | none ↦ none
  | some ref ↦ elim (lookup ref st.states) [ none ↦ none | some s ↦ some (ref, s) ]
]

-- `Delete`, `deleteLocked`
unfoldable pub delete_session : Bytes → Store → Store
delete_session id st = elim (find id st) [ none ↦ st | some (ref, s) ↦ remove id ref s st ]

-- The test of `expireLocked` that keeps a session.
unfoldable pub is_kept : Limits → State → ℕ → Bool
is_kept l s now =
    l.offline_ttl == 0
    || s.connected
    || s.offline_since == 0
    || ltb (now - s.offline_since) l.offline_ttl

abbrev pub count_expired : Store → Store
count_expired st = record st {
  totals = record st.totals { expired_sessions = next64 st.totals.expired_sessions };
}

-- `expireLocked`, on the session at an address.
unfoldable pub expire_locked : ℕ → ℕ → Store → Bool × Store
expire_locked ref now st = elim (lookup ref st.states) [
  | none ↦ (false, st)
  | some s ↦
      if is_kept st.limits s now
      then (false, st)
      else (true, count_expired (delete_session s.id st))
]

-- `ExpireSession`
unfoldable pub expire_session : Bytes → ℕ → Store → Bool × Store
expire_session id now st = elim (lookup id st.by_id) [
  | none ↦ (false, st)
  | some ref ↦ expire_locked ref now st
]

-- The loop of `Expire` over the map. Go allows the deletions that the loop makes in it.
unfoldable pub expire_loop : Map Bytes ℕ → ℕ → Store → List Bytes × Store
expire_loop [] now st = ([], st)
expire_loop ((id, ref) ∷ m) now st =
    let (gone, st') = expire_locked ref now st in
    let (expired, st'') = expire_loop m now st' in (if gone then id ∷ expired else expired, st'')

-- `Expire`
unfoldable pub expire : ℕ → Store → List Bytes × Store
expire now st = if st.limits.offline_ttl == 0 then ([], st) else expire_loop st.by_id now st

-- How long the message at the head of the queue has been there. The clock is monotonic.
abbrev pub oldest_age : List Entry → ℕ → ℕ
oldest_age [] now = 0
oldest_age (e ∷ es) now = now - e.accepted

-- `snapshotLocked`, which `State.Snapshot` returns.
unfoldable pub state_snapshot : State → ℕ → Snapshot
state_snapshot s now = record s.stats {
  subscription_count = length s.subscriptions;
  inflight_messages = length s.inflight;
  oldest_pending_age = oldest_age s.entries now;
}

abbrev pub session_age : Option State → ℕ → ℕ
unfolding state_snapshot
session_age none now = 0
session_age (some s) now = (state_snapshot s now).oldest_pending_age

-- The loop of `Store.Snapshot`, from the oldest age so far.
unfoldable pub oldest_of : Map Bytes ℕ → Map ℕ State → ℕ → ℕ → ℕ
oldest_of [] states now oldest = oldest
oldest_of ((id, ref) ∷ m) states now oldest =
    let age = session_age (lookup ref states) now in
    oldest_of m states now (if ltb oldest age then age else oldest)

-- `Store.Snapshot`
unfoldable pub store_snapshot : Store → ℕ → Snapshot
store_snapshot st now = record st.totals {
  session_count = length st.by_id;
  oldest_pending_age = oldest_of st.by_id st.states now st.totals.oldest_pending_age;
}
