-- ===== src/Server/Connections.antt =====
-- internal/server/server.go: `connectionGroup`, which admits connections and counts them. A
-- connection is its address.
pub mod Bounds
use orb_mq.Base.{
  ℕ, ◌+◌, ◌-◌, Map, nat_eq, lookup, insert, delete, Bool, true, false, not, ◌&&◌, ◌||◌, ltb, leb,
  ◌==◌, if◌then◌else◌, List, [], ◌∷◌, Option, none, some, length, map,
}
use orb_mq.Session.State.{next64}

pub record ConnectionLimits : Type 0 where
  pub max_connections : ℕ
  pub max_handshakes : ℕ

abbrev pub default_connection_limits : ConnectionLimits
default_connection_limits = record { max_connections = 10000; max_handshakes = 1000 }

-- `ConnectionLimits.Validate`, for limits that are not negative: whether there is no error.
unfoldable pub valid_connection_limits : ConnectionLimits → Bool
valid_connection_limits l =
    not (l.max_connections == 0 || l.max_handshakes == 0 || ltb l.max_connections l.max_handshakes)

pub record Snapshot : Type 0 where
  pub authentication_rejections : ℕ
  pub authorization_rejections : ℕ
  pub connections : ℕ
  pub handshakes : ℕ
  pub connection_rejections : ℕ
  pub handshake_rejections : ℕ

-- A connection is mapped to whether its handshake lasts.
pub record Group : Type 0 where
  pub connections : Map ℕ Bool
  pub stats : Snapshot

abbrev pub no_connections : Group
no_connections = record {
  connections = [];
  stats = record {
    authentication_rejections = 0;
    authorization_rejections = 0;
    connections = 0;
    handshakes = 0;
    connection_rejections = 0;
    handshake_rejections = 0;
  };
}

-- What `start` does with the connection: it starts the handler, or closes the connection, and then
-- goes on to accept others or not.
pub data Start : Type 0 where
  handled rejected stopped : Start

abbrev pub reject_connection : Group → Group
reject_connection g = record g {
  stats = record g.stats { connection_rejections = next64 g.stats.connection_rejections };
}

abbrev pub reject_handshake : Group → Group
reject_handshake g = record g {
  stats = record g.stats { handshake_rejections = next64 g.stats.handshake_rejections };
}

abbrev pub accept : ℕ → Group → Group
accept conn g = record {
  connections = insert conn true g.connections;
  stats = record g.stats { handshakes = g.stats.handshakes + 1 };
}

-- `start` up to the start of the handler; `ended` is an error of the context.
unfoldable pub start : Bool → ℕ → ConnectionLimits → Group → Start × Group
start ended conn l g =
    if ended
    then (stopped, g)
    else if leb l.max_connections (length g.connections)
    then (rejected, reject_connection g)
    else if leb l.max_handshakes g.stats.handshakes
    then (rejected, reject_handshake g)
    else (handled, accept conn g)

-- `g.connections[conn]`; a missing key reads as false.
unfoldable pub is_handshaking : ℕ → Group → Bool
is_handshaking conn g = elim (lookup conn g.connections) [ none ↦ false | some b ↦ b ]

abbrev pub end_handshake : Group → Group
end_handshake g = record g { stats = record g.stats { handshakes = g.stats.handshakes - 1 } }

-- What `start` defers until the handler returns.
unfoldable pub finish : ℕ → Group → Group
finish conn g =
    let g' = if is_handshaking conn g then end_handshake g else g in
    record g' { connections = delete conn g.connections }

-- `completeHandshake`
unfoldable pub complete_handshake : ℕ → Group → Group
complete_handshake conn g =
    if is_handshaking conn g
    then record (end_handshake g) { connections = insert conn false g.connections }
    else g

-- `closeAll`: the connections that it closes.
unfoldable pub close_all : Group → List ℕ
close_all g = map (λ p. p.0) g.connections

-- `Server.Snapshot`
unfoldable pub group_snapshot : Group → Snapshot
group_snapshot g = record g.stats { connections = length g.connections }
