-- ===== src/Session/Limits.antt =====
-- internal/session/queue.go: `Limits`, its defaults and its validation.

use orb_mq.Base.{ℕ, ◌*◌, ◌^◌, ◌||◌, ltb, ◌==◌, if◌then◌else◌, Option, none, some}

-- Counts and durations (in nanoseconds). Validation refuses what is negative, and the source never
-- computes with a limit that was not validated.
pub record Limits : Type 0 where
  pub max_sessions : ℕ
  pub max_subscriptions_per_session : ℕ
  pub max_subscriptions_global : ℕ
  pub max_filter_bytes : ℕ
  pub max_filter_levels : ℕ
  pub offline_ttl : ℕ
  pub cleanup_interval : ℕ
  pub max_pending_messages_per_session : ℕ
  pub max_pending_bytes_per_session : ℕ
  pub max_pending_messages_global : ℕ
  pub max_pending_bytes_global : ℕ
  pub max_inflight_messages_per_session : ℕ

abbrev pub second : ℕ
second = 1_000_000_000

abbrev pub default_limits : Limits
default_limits = record {
  max_sessions = 10000;
  max_subscriptions_per_session = 1000;
  max_subscriptions_global = 100000;
  max_filter_bytes = 4096;
  max_filter_levels = 64;
  offline_ttl = 0;
  cleanup_interval = 60 * second;
  max_pending_messages_per_session = 1000;
  max_pending_bytes_per_session = 16 * 2 ^ 20;
  max_pending_messages_global = 100000;
  max_pending_bytes_global = 256 * 2 ^ 20;
  max_inflight_messages_per_session = 20;
}

pub data LimitsError : Type 0 where
  resources_not_positive invalid_resources sessions_not_positive exceeds_global invalid_inflight :
      LimitsError

-- `Validate`; `none` is a nil error. A value of the model is not negative, so `x <= 0` is `x == 0`.
unfoldable pub validate : Limits → Option LimitsError
validate l =
    if l.max_sessions == 0
      || l.max_subscriptions_per_session == 0
      || l.max_subscriptions_global == 0
      || l.max_filter_bytes == 0
      || l.max_filter_levels == 0
    then some resources_not_positive
    else if ltb l.max_subscriptions_global l.max_subscriptions_per_session
        || ltb 65535 l.max_filter_bytes
        || l.cleanup_interval == 0
    then some invalid_resources
    else if l.max_pending_messages_per_session == 0
        || l.max_pending_bytes_per_session == 0
        || l.max_pending_messages_global == 0
        || l.max_pending_bytes_global == 0
        || l.max_inflight_messages_per_session == 0
    then some sessions_not_positive
    else if ltb l.max_pending_messages_global l.max_pending_messages_per_session
        || ltb l.max_pending_bytes_global l.max_pending_bytes_per_session
    then some exceeds_global
    else if ltb 65535 l.max_inflight_messages_per_session
        || ltb l.max_pending_messages_per_session l.max_inflight_messages_per_session
    then some invalid_inflight
    else none
