-- ===== src/Server/Security.antt =====
-- internal/server/security.go: the answer to a CONNECT, and the permission to publish.
pub mod Admission
mod Tests
use orb_mq.Base.{
  ℕ, ◌+◌, Bytes, Bool, true, false, not, ◌&&◌, ◌||◌, if◌then◌else◌, [], Option, none, some,
}
use orb_mq.Protocol.Packet.{WillMessage, ConnectPacket}
use orb_mq.Auth.Password.{Crypto}
use orb_mq.Auth.Local.{
  Local, Outcome, identified, expired, busy_slots, bad_credentials, authenticate, can_use_client_id,
  can_publish,
}
use orb_mq.Session.State.{next64}
use orb_mq.Server.Connections.{Group}
use orb_mq.Server.Sessions.{Server, record_authorization_rejection}

-- `ConnAckReturnCode`
pub data Code : Type 0 where
  conn_accepted server_unavailable bad_user not_authorized : Code

abbrev pub code_byte : Code → ℕ
code_byte conn_accepted = 0
code_byte server_unavailable = 3
code_byte bad_user = 4
code_byte not_authorized = 5

abbrev pub is_absent {ℓ} : {A : Type ℓ} → Option A → Bool
is_absent none = true
is_absent (some a) = false

-- A pointer to a string, with the empty text for nil.
abbrev pub text_or_empty : Option Bytes → Bytes
text_or_empty none = []
text_or_empty (some s) = s

-- The will's topic may be published, or there is no will.
unfoldable pub may_will : Local → Bytes → Option WillMessage → Bool
may_will l identity none = true
may_will l identity (some w) = can_publish l identity w.topic

-- `authenticateConnect` behind Authenticate; `late` is an error of the context.
abbrev pub judge : Bool → ConnectPacket → Local → Outcome → Bytes × Code
judge late p l busy_slots = ([], server_unavailable)
judge late p l expired = if late then ([], server_unavailable) else ([], bad_user)
judge late p l bad_credentials = if late then ([], server_unavailable) else ([], bad_user)
judge late p l (identified identity) =
    if late
    then ([], server_unavailable)
    else if is_absent p.username || is_absent p.password
    then ([], bad_user)
    else if not (can_use_client_id l identity p.client_id) || not (may_will l identity p.will)
    then ([], not_authorized)
    else (identity, conn_accepted)

-- The rest of `authenticateConnect` where there is a policy.
abbrev pub authenticated : Bool → ConnectPacket → Server → Outcome × Local → (Bytes × Code) × Server
authenticated late p srv (o, l) = (judge late p l o, record srv { auth = some l })

-- `authenticateConnect`. The three Booleans are the errors of the context where Authenticate begins,
-- where it has checked the password, and behind it.
unfoldable pub authenticate_connect :
    Crypto → Bool → Bool → Bool → ConnectPacket → Server → (Bytes × Code) × Server
authenticate_connect k late late' late'' p srv = elim srv.auth [
  | none ↦ (([], conn_accepted), srv)
  | some l ↦
      authenticated late'' p srv
        (authenticate k late late' (text_or_empty p.username) (text_or_empty p.password) l)
]

-- What `rejectConnection` counts; the packet that it sends is output.
unfoldable pub count_rejection : Code → Server → Server
count_rejection not_authorized srv = record_authorization_rejection srv
count_rejection code srv = record srv {
  connections = record srv.connections {
    stats = record srv.connections.stats {
      authentication_rejections = next64 srv.connections.stats.authentication_rejections;
    };
  };
}

-- `canPublish` without its count.
unfoldable pub may_publish : Bytes → Bytes → Server → Bool
may_publish identity name srv = elim srv.auth [ none ↦ true | some l ↦ can_publish l identity name ]

-- `canPublish`
unfoldable pub publish_allowed : Bytes → Bytes → Server → Bool × Server
publish_allowed identity name srv =
    if may_publish identity name srv
    then (true, srv)
    else (false, record_authorization_rejection srv)
