-- ===== src/Server/Security/Tests.antt =====
-- A CONNECT that a policy of one user lets in.
use orb_mq.Base.{ℕ, Bytes, codes, [], ◌∷◌, false, none, some, length, lookup, bytes_Eq, ◌≡◌, refl}
use orb_mq.Protocol.Packet.{ConnectPacket}
use orb_mq.Topic.Tree.{empty_node}
use orb_mq.Auth.Password.{Crypto}
use orb_mq.Auth.Local.{Local}
use orb_mq.Session.Limits.{default_limits}
use orb_mq.Session.Store.{no_counts}
use orb_mq.Server.Sessions.{Server}
use orb_mq.Server.Sessions.Serves.{new_server}
use orb_mq.Server.Security.{conn_accepted, authenticate_connect}
use orb_mq.Server.Security.Admission.{IsAdmitted, authenticate_connect-IsAdmitted}

-- A key that is the length of the password.
abbrev measure : Crypto
measure = record {
  derive_key = λ password salt. some (length password ∷ []);
  encode_base64 = λ b. b;
  decode_base64 = λ b. some b;
}

abbrev policy : Local
policy = record {
  users =
      (
        codes "ann",
        record {
          client_ids = codes "c" ∷ [];
          publish = codes "a/+" ∷ [];
          subscribe = [];
          hash = record { salt = []; key = 2 ∷ [] };
        },
      )
      ∷ [];
  slots = 1;
  busy = 0;
  dummy = record { salt = []; key = [] };
}

abbrev guarded : Server
guarded =
    new_server (some policy)
      (record {
        topics = empty_node;
        retained = [];
        limits = record { max_messages = 10; max_bytes = 1000 };
        stats = record { retained_messages = 0; retained_bytes = 0; retained_rejections = 0 };
      })
      (record {
        by_id = [];
        states = [];
        limits = default_limits;
        totals = no_counts;
        next_state = 0;
      })

abbrev request : ConnectPacket
request = record {
  protocol_name = codes "MQTT";
  protocol_level = 4;
  clean_session = false;
  keep_alive = 60;
  client_id = codes "c";
  will = some (record { topic = codes "a/b"; payload = []; qos = 0; retain = false });
  username = some (codes "ann");
  password = some (codes "pw");
}

request_accepted :
    (authenticate_connect measure false false false request guarded).0
    ≡ (codes "ann", conn_accepted)
unfolding authenticate_connect orb_mq.Auth.Local.authenticate orb_mq.Auth.Local.begin_authenticate
    orb_mq.Auth.Local.finish_authenticate orb_mq.Auth.Local.is_known lookup orb_mq.Base.bytes_eq
    orb_mq.Auth.Password.verify orb_mq.Auth.Local.can_use_client_id orb_mq.Auth.Local.contains
    orb_mq.Server.Security.may_will orb_mq.Auth.Local.can_publish orb_mq.Auth.Local.valid_name
    orb_mq.Auth.Local.has_wildcard orb_mq.Auth.Local.any_matches orb_mq.Protocol.Wire.contains_byte
    orb_mq.Protocol.Wire.valid_utf8 orb_mq.Topic.Parse.match_filter orb_mq.Topic.Parse.match_levels
    orb_mq.Topic.Parse.split_filter orb_mq.Topic.Parse.split_topic orb_mq.Topic.Parse.starts_with
request_accepted = refl

authenticate_connect-IsAdmitted_example : IsAdmitted measure policy request (codes "ann")
authenticate_connect-IsAdmitted_example =
    authenticate_connect-IsAdmitted measure false false false request guarded policy (codes "ann")
      refl request_accepted
