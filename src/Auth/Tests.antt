-- ===== src/Auth/Tests.antt =====
-- Runs of authentication and authorisation, and the theorems about them at a concrete policy.
use orb_mq.Base.{
  bytes_Eq, ℕ, zero, suc, ◌+◌, ◌-◌, ◌++◌, ap, subst, some_inj, Bytes, codes, map, List, [], ◌∷◌,
  Bool, true, false, Option, none, some, length, lookup, ◌≡◌, ◌≢◌, ◌↔◌, refl, arith,
}
use orb_mq.Protocol.Wire.{contains_byte}
use orb_mq.Topic.Parse.{match_filter}
use orb_mq.Auth.Password.{Crypto, IsCrypto, PasswordHash, hash_password, verify_password}
use orb_mq.Auth.Local.{
  User, Entry, Local, Policy, valid, contains, zeros, new_local, Outcome, identified, authenticate,
  can_use_client_id, can_subscribe, subscribe_of,
}
use orb_mq.Auth.Policy.{
  Allowed, can_subscribe-Allowed, can_use_client_id_unique, can_subscribe_total,
}
use orb_mq.Auth.Credentials.{Identifies, verify_password-hash_password, authenticate_iff}

-- A text encoding that shifts every byte, and a key that only the password's length decides.
abbrev toy : Crypto
toy = record {
  derive_key = λ password salt. some (length password ∷ zeros 31);
  encode_base64 = λ b. map (λ c. c + 100) b;
  decode_base64 = λ b. some (map (λ c. c - 100) b);
}

ap-cons : {a b : ℕ} {s t : Bytes} → a ≡ b → s ≡ t → (a ∷ s) ≡ (b ∷ t)
ap-cons p q = cc (p, q)

shift_back : (b : Bytes) → map (λ c. c - 100) (map (λ c. c + 100) b) ≡ b
shift_back [] = refl
shift_back (c ∷ b) = ap-cons (omega arith) (shift_back b)

shift_apart : (b : Bytes) → contains_byte b'$' (map (λ c. c + 100) b) ≡ false
unfolding contains_byte
shift_apart [] = refl
shift_apart (c ∷ b) = ground (arith, shift_apart b)

toy-IsCrypto : IsCrypto toy
toy-IsCrypto = record {
  decode-encode = λ b. ap some (shift_back b);
  alphabet = shift_apart;
  key_length = λ p s key e. subst (λ k. length k ≡ 32) (some_inj e) refl;
}

abbrev key : Bytes
key = 2 ∷ zeros 31

-- The hash of a password of two bytes.
abbrev text : Bytes
text =
    codes "pbkdf2-sha256$600000$"
    ++ (map (λ c. c + 100) (zeros 16) ++ (b'$' ∷ map (λ c. c + 100) key))

text_is_hash : hash_password toy (codes "pw") (zeros 16) ≡ some text
unfolding hash_password
text_is_hash = refl

verify_password-hash_password_example :
    (verify_password toy text (codes "pw") ≡ some true)
    × ((other : Bytes)
        → (verify_password toy text other ≡ some true)
          ↔ (toy.derive_key other (zeros 16) ≡ some key))
verify_password-hash_password_example =
    verify_password-hash_password toy toy-IsCrypto (codes "pw") (zeros 16) text key refl refl
      text_is_hash

abbrev ann : User
ann = record {
  username = codes "ann";
  password_hash = text;
  client_ids = codes "c1" ∷ codes "c2" ∷ [];
  publish = codes "a/b" ∷ [];
  subscribe = codes "a/#" ∷ codes "x/+" ∷ [];
}

abbrev ann_entry : Entry
ann_entry = record {
  client_ids = codes "c1" ∷ codes "c2" ∷ [];
  publish = codes "a/b" ∷ [];
  subscribe = codes "a/#" ∷ codes "x/+" ∷ [];
  hash = record { salt = zeros 16; key = key };
}

abbrev policy : Local
policy = record {
  users = (codes "ann", ann_entry) ∷ [];
  slots = 4;
  busy = 1;
  dummy = record { salt = zeros 16; key = zeros 32 };
}

abbrev idle_policy : Local
idle_policy = record policy { busy = 0 }

policy_accepted : new_local toy (ann ∷ []) 4 ≡ valid idle_policy
unfolding new_local orb_mq.Auth.Local.add_users orb_mq.Auth.Local.add_user
    orb_mq.Auth.Local.valid_name orb_mq.Base.bytes_eq orb_mq.Protocol.Wire.valid_utf8 contains_byte
    orb_mq.Auth.Local.is_known lookup orb_mq.Auth.Password.parse_password_hash
    orb_mq.Auth.Password.decode_parts orb_mq.Auth.Local.take_ids orb_mq.Auth.Local.has_wildcard
    contains orb_mq.Auth.Local.valid_filters orb_mq.Auth.Local.is_valid_filter
    orb_mq.Protocol.Wire.check_topic_filter orb_mq.Auth.Password.split_at_byte orb_mq.Base.insert
    orb_mq.Protocol.Wire.filter_loop orb_mq.Protocol.Wire.valid_string
policy_accepted = refl

ann_uses_c2 : can_use_client_id idle_policy (codes "ann") (codes "c2") ≡ true
unfolding can_use_client_id lookup orb_mq.Base.bytes_eq
ann_uses_c2 = refl

can_use_client_id_unique_example : codes "ann" ≡ codes "ann"
can_use_client_id_unique_example =
    can_use_client_id_unique toy (ann ∷ []) 4 idle_policy (codes "ann") (codes "ann") (codes "c2")
      policy_accepted ann_uses_c2 ann_uses_c2

can_subscribe_total_example : can_subscribe idle_policy (codes "ann") (codes "x/+") ≢ none
can_subscribe_total_example =
    can_subscribe_total toy (ann ∷ []) 4 idle_policy (codes "ann") (codes "x/+") policy_accepted

topic_nonempty : codes "x/y" ≢ []
topic_nonempty e = cc e

subscribe_granted : can_subscribe policy (codes "ann") (codes "x/+") ≡ some true
unfolding can_subscribe orb_mq.Auth.Local.is_valid_filter orb_mq.Protocol.Wire.check_topic_filter
    orb_mq.Protocol.Wire.valid_string orb_mq.Protocol.Wire.valid_utf8 contains_byte
    orb_mq.Base.bytes_eq orb_mq.Protocol.Wire.filter_loop lookup orb_mq.Topic.Parse.covers_filter
    orb_mq.Topic.Parse.covers_levels orb_mq.Topic.Parse.split_filter
    orb_mq.Topic.Parse.widen_requested
subscribe_granted = refl

topic_matches : match_filter (codes "x/+") (codes "x/y") ≡ true
unfolding match_filter orb_mq.Topic.Parse.match_levels orb_mq.Topic.Parse.split_filter
    orb_mq.Topic.Parse.split_topic orb_mq.Base.bytes_eq
topic_matches = refl

can_subscribe-Allowed_example :
    Allowed (subscribe_of (lookup (codes "ann") policy.users)) (codes "x/y")
can_subscribe-Allowed_example =
    can_subscribe-Allowed policy (codes "ann") (codes "x/+") (codes "x/y") topic_nonempty
      subscribe_granted topic_matches

authenticate_iff_example :
    (((authenticate toy false false (codes "ann") (codes "pw") policy).0 ≡ identified (codes "ann"))
      ↔ Identifies toy false false (codes "ann") (codes "pw") policy (codes "ann"))
    × ((authenticate toy false false (codes "ann") (codes "pw") policy).1.busy ≡ policy.busy)
authenticate_iff_example =
    authenticate_iff toy false false (codes "ann") (codes "pw") (codes "ann") policy
