-- ===== src/Server/Security/Admission.antt =====
-- internal/server/security.go with internal/auth: whom authenticateConnect accepts.
use orb_mq.Base.{
  Bytes, lookup, bytes_Eq, Bool, Bool-cases, true, false, not, ◌||◌, ltb, Option, none, some, ◌≡◌,
  inl, inr, refl, arith, subst, sym, ap, ◌∙◌,
}
use orb_mq.Protocol.Packet.{ConnectPacket}
use orb_mq.Auth.Password.{Crypto}
use orb_mq.Auth.Local.{
  Entry, Local, Outcome, identified, expired, busy_slots, bad_credentials, begin_authenticate,
  finish_authenticate, authenticate, can_use_client_id,
}
use orb_mq.Auth.Credentials.{authenticate_iff}
use orb_mq.Server.Sessions.{Server}
use orb_mq.Server.Security.{
  conn_accepted, is_absent, text_or_empty, may_will, judge, authenticate_connect,
}

-- What is true of a client that a policy lets in: it names its user, its password gives the user's
-- key, and the user may use the client identifier and publish the will.
pub record IsAdmitted (k : Crypto) (l : Local) (p : ConnectPacket) (identity : Bytes) : Type 0 where
  pub username : p.username ≡ some identity
  pub password : Bytes
  pub given : p.password ≡ some password
  pub user : Entry
  pub known : lookup identity l.users ≡ some user
  pub password_ok : k.derive_key password user.hash.salt ≡ some user.hash.key
  pub client : can_use_client_id l identity p.client_id ≡ true
  pub will : may_will l identity p.will ≡ true

-- Authenticate leaves the policy as it was.
authenticate_same :
    (k : Crypto) (late late' : Bool) (username password : Bytes) (l : Local)
    → (authenticate k late late' username password l).1 ≡ l
unfolding authenticate begin_authenticate finish_authenticate
authenticate_same k late late' username password l = elim (Bool-cases late) [
  | inl q ↦ rw (authenticate, begin_authenticate, q) refl
  | inr q ↦ elim (Bool-cases (ltb l.busy l.slots)) [
    | inl r ↦
        rw (authenticate, begin_authenticate, q, r) (ap (λ b. record l { busy = b }) (omega arith))
    | inr r ↦ rw (authenticate, begin_authenticate, q, r) refl
  ]
]

-- What `judge` accepts.
record Judged (p : ConnectPacket) (l : Local) (o : Outcome) (identity : Bytes) : Type 0 where
  outcome : o ≡ identified identity
  present : (is_absent p.username || is_absent p.password) ≡ false
  allowed :
      (not (can_use_client_id l identity p.client_id) || not (may_will l identity p.will)) ≡ false

judge-Judged :
    (late : Bool) (p : ConnectPacket) (l : Local) (o : Outcome) (identity : Bytes)
    → judge late p l o ≡ (identity, conn_accepted)
    → Judged p l o identity
judge-Judged late p l busy_slots identity h = cc h
judge-Judged true p l expired identity h = cc h
judge-Judged false p l expired identity h = cc h
judge-Judged true p l bad_credentials identity h = cc h
judge-Judged false p l bad_credentials identity h = cc h
judge-Judged true p l (identified id) identity h = cc h
judge-Judged false p l (identified id) identity h =
    elim (Bool-cases (is_absent p.username || is_absent p.password)) [
      | inl a ↦ cc (rw a at h)
      | inr a ↦
          elim (Bool-cases
            (not (can_use_client_id l id p.client_id) || not (may_will l id p.will))) [
              | inl b ↦ cc (rw (a, b) at h)
              | inr b ↦
                  let same : id ≡ identity = ap (λ r. r.0) (rw (a, b) at h) in
                  record {
                    outcome = ap identified same;
                    present = a;
                    allowed =
                        subst
                          (λ i.
                            (not (can_use_client_id l i p.client_id) || not (may_will l i p.will))
                            ≡ false)
                          same b;
                  }
            ]
    ]

present_text : (o : Option Bytes) → is_absent o ≡ false → o ≡ some (text_or_empty o)
present_text none h = cc h
present_text (some s) h = refl

-- A client that authenticateConnect accepts under a policy names its user, gives a password with
-- that user's key, and has a client identifier and a will that the policy allows this user.
pub authenticate_connect-IsAdmitted :
    (k : Crypto) (late late' late'' : Bool) (p : ConnectPacket) (srv : Server) (l : Local)
    (identity : Bytes)
    → srv.auth ≡ some l
    → (authenticate_connect k late late' late'' p srv).0 ≡ (identity, conn_accepted)
    → IsAdmitted k l p identity
unfolding authenticate_connect
authenticate_connect-IsAdmitted k late late' late'' p srv l identity e h =
    let name = text_or_empty p.username in
    let word = text_or_empty p.password in
    let o = (authenticate k late late' name word l).0 in
    let judged = judge-Judged late'' p l o identity (
      subst (λ x. judge late'' p x o ≡ (identity, conn_accepted))
        (authenticate_same k late late' name word l) (rw (authenticate_connect, e) at h)) in
    let i = (authenticate_iff k late late' name word identity l).0.0 judged.outcome in
    let (u, look, key) = i.password_ok in
    record {
      username = present_text p.username (ground (arith, judged.present)) ∙ ap some (sym i.same);
      password = word;
      given = present_text p.password (ground (arith, judged.present));
      user = u;
      known = ap (λ x. lookup x l.users) i.same ∙ look;
      password_ok = key;
      client = ground (arith, judged.allowed);
      will = ground (arith, judged.allowed);
    }
