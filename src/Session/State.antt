-- ===== src/Session/State.antt =====
-- internal/session/queue.go and store.go: the data of a session and of the store's totals.
use orb_mq.Base.{ℕ, ◌+◌, ◌%◌, ◌^◌, Bytes, Map, Bool, List}
use orb_mq.Session.Limits.{Limits}

pub record Snapshot : Type 0 where
  pub session_count : ℕ
  pub subscription_count : ℕ
  pub session_rejections : ℕ
  pub subscription_rejections : ℕ
  pub filter_rejections : ℕ
  pub expired_sessions : ℕ
  pub pending_messages : ℕ
  pub pending_bytes : ℕ
  pub inflight_messages : ℕ
  pub session_limit_drops : ℕ
  pub global_limit_drops : ℕ
  pub oldest_pending_age : ℕ

-- `*entry`: the object together with its address, `ref`. Times are nanoseconds.
pub record Entry : Type 0 where
  pub ref : ℕ
  pub packet : Bytes
  pub packet_id_offset : ℕ
  pub packet_id : ℕ
  pub last_epoch : ℕ
  pub accepted : ℕ

pub record Delivery : Type 0 where
  pub packet : Bytes
  pub packet_id : ℕ

-- `inflight` maps a packet identifier to the address of an entry. `changed` tells whether the
-- channel of one place holds a token. `offline_since` is 0 for the zero time. `next_ref` is the
-- address that the next entry gets.
pub record State : Type 0 where
  pub id : Bytes
  pub owner : Bytes
  pub deleted : Bool
  pub subscriptions : Map Bytes ℕ
  pub entries : List Entry
  pub inflight : Map ℕ ℕ
  pub next_packet_id : ℕ
  pub epoch : ℕ
  pub active_inflight : ℕ
  pub paused : Bool
  pub changed : Bool
  pub stats : Snapshot
  pub connected : Bool
  pub offline_since : ℕ
  pub next_ref : ℕ

-- What a method of a session reads and writes under the store's lock: the session, and the limits
-- and totals of its store.
pub record Cell : Type 0 where
  pub limits : Limits
  pub totals : Snapshot
  pub state : State

-- `x++` on a uint64.
abbrev pub next64 : ℕ → ℕ
next64 x = (x + 1) % 2 ^ 64
