-- ===== src/Auth/Local.antt =====
-- internal/auth/local.go.
use orb_mq.Base.{
  ℕ, zero, suc, ◌+◌, ◌-◌, Bytes, bytes_eq, bytes_Eq, Map, lookup, insert, Bool, true, false, not,
  ◌&&◌, ◌||◌, ltb, leb, if◌then◌else◌, List, [], ◌∷◌, Option, none, some, length,
}
use orb_mq.Protocol.Reader.{ok, err}
use orb_mq.Protocol.Wire.{valid_utf8, contains_byte, check_topic_filter}
use orb_mq.Topic.Parse.{match_filter, covers_filter}
use orb_mq.Auth.Password.{Crypto, PasswordHash, parse_password_hash, verify}

-- What New is given.
pub record User : Type 0 where
  pub username : Bytes
  pub password_hash : Bytes
  pub client_ids : List Bytes
  pub publish : List Bytes
  pub subscribe : List Bytes

-- `user`, what a policy keeps.
pub record Entry : Type 0 where
  pub client_ids : List Bytes
  pub publish : List Bytes
  pub subscribe : List Bytes
  pub hash : PasswordHash

-- `busy` counts the tokens in the channel `slots`, which holds `slots` of them.
pub record Local : Type 0 where
  pub users : Map Bytes Entry
  pub slots : ℕ
  pub busy : ℕ
  pub dummy : PasswordHash

pub data PolicyError : Type 0 where
  no_users invalid_identity duplicate_username invalid_hash invalid_client_id invalid_filter :
      PolicyError

pub data Policy (A : Type 0) : Type 0 where
  valid : A → Policy A
  invalid : PolicyError → Policy A

unfoldable pub valid_name : Bytes → Bool
valid_name s =
    not (bytes_eq s []) && leb (length s) 65535 && valid_utf8 s && not (contains_byte 0 s)

-- `strings.ContainsAny(s, "+#")`
unfoldable pub has_wildcard : Bytes → Bool
has_wildcard s = contains_byte b'+' s || contains_byte b'#' s

unfoldable pub contains : Bytes → List Bytes → Bool
contains a [] = false
contains a (b ∷ l) = bytes_eq b a || contains a l

-- The loop over an entry's client identifiers, with those that are taken.
unfoldable pub take_ids : List Bytes → List Bytes → Option (List Bytes)
take_ids [] taken = some taken
take_ids (id ∷ ids) taken =
    let rest = take_ids ids (id ∷ taken) in
    if not (valid_name id) || has_wildcard id || contains id taken then none else rest

unfoldable pub is_valid_filter : Bytes → Bool
is_valid_filter f = elim (check_topic_filter f) [ ok u ↦ true | err e ↦ false ]

unfoldable pub valid_filters : List Bytes → Bool
valid_filters [] = true
valid_filters (f ∷ fs) = is_valid_filter f && valid_filters fs

abbrev pub is_nil {ℓ} : {A : Type ℓ} → List A → Bool
is_nil [] = true
is_nil (a ∷ l) = false

unfoldable pub is_known : Bytes → Map Bytes Entry → Bool
is_known id users = elim (lookup id users) [ none ↦ false | some e ↦ true ]

abbrev pub zeros : ℕ → Bytes
zeros zero = []
zeros (suc n) = 0 ∷ zeros n

module _ (k : Crypto) where
  -- One round of New's loop: the identifiers and the users after an entry.
  unfoldable pub add_user :
      User → List Bytes × Map Bytes Entry → Policy (List Bytes × Map Bytes Entry)
  add_user u (taken, users) =
      if not (valid_name u.username) || is_nil u.client_ids
      then invalid invalid_identity
      else if is_known u.username users
      then invalid duplicate_username
      else elim (parse_password_hash k u.password_hash) [
        | none ↦ invalid invalid_hash
        | some hash ↦ elim (take_ids u.client_ids taken) [
          | none ↦ invalid invalid_client_id
          | some taken' ↦
              if valid_filters u.publish && valid_filters u.subscribe
              then valid (
                taken',
                insert u.username
                    (record {
                      client_ids = u.client_ids;
                      publish = u.publish;
                      subscribe = u.subscribe;
                      hash = hash;
                    })
                    users,
              )
              else invalid invalid_filter
        ]
      ]

  unfoldable pub add_users :
      List User → List Bytes × Map Bytes Entry → Policy (List Bytes × Map Bytes Entry)
  add_users [] acc = valid acc
  add_users (u ∷ us) acc = elim (add_user u acc) [
    | invalid e ↦ invalid e
    | valid acc' ↦ add_users us acc'
  ]

  -- `New`, with the number of processors for the slots.
  unfoldable pub new_local : List User → ℕ → Policy Local
  new_local us processors = if is_nil us then invalid no_users else elim (add_users us ([], [])) [
    | invalid e ↦ invalid e
    | valid (taken, users) ↦ valid (record {
      users = users;
      slots = processors;
      busy = 0;
      dummy = record { salt = zeros 16; key = zeros 32 };
    })
  ]

  -- The hash that Authenticate tries: the dummy's for an unknown user.
  abbrev pub hash_of : Local → Bytes → PasswordHash
  hash_of l username = elim (lookup username l.users) [ none ↦ l.dummy | some e ↦ e.hash ]

-- What Authenticate returns.
pub data Outcome : Type 0 where
  identified : Bytes → Outcome
  expired busy_slots bad_credentials : Outcome

-- `Authenticate` up to the check of the password: it takes a slot, or returns at once. `late` is an
-- error of the context.
unfoldable pub begin_authenticate : Bool → Local → Option Outcome × Local
begin_authenticate late l =
    if late
    then (some expired, l)
    else if ltb l.busy l.slots
    then (none, record l { busy = l.busy + 1 })
    else (some busy_slots, l)

-- The rest of `Authenticate`, and the deferred release of the slot.
unfoldable pub finish_authenticate : Crypto → Bool → Bytes → Bytes → Local → Outcome × Local
finish_authenticate k late username password l =
    let outcome =
      if late
      then expired
      else if is_known username l.users && verify k (hash_of k l username) password
      then identified username
      else bad_credentials in
    (outcome, record l { busy = l.busy - 1 })

abbrev pub resume_authenticate :
    Crypto → Bool → Bytes → Bytes → Option Outcome × Local → Outcome × Local
resume_authenticate k late username password (some o, l) = (o, l)
resume_authenticate k late username password (none, l) =
    finish_authenticate k late username password l

-- `Authenticate`, while no other call takes or gives back a slot.
unfoldable pub authenticate : Crypto → Bool → Bool → Bytes → Bytes → Local → Outcome × Local
authenticate k late late' username password l =
    resume_authenticate k late' username password (begin_authenticate late l)

-- The lists of an identity; an unknown one has none.
abbrev pub client_ids_of : Option Entry → List Bytes
client_ids_of none = []
client_ids_of (some e) = e.client_ids

abbrev pub publish_of : Option Entry → List Bytes
publish_of none = []
publish_of (some e) = e.publish

abbrev pub subscribe_of : Option Entry → List Bytes
subscribe_of none = []
subscribe_of (some e) = e.subscribe

-- `CanUseClientID`
unfoldable pub can_use_client_id : Local → Bytes → Bytes → Bool
unfolding contains
can_use_client_id l identity id = contains id (client_ids_of (lookup identity l.users))

unfoldable pub any_matches : List Bytes → Bytes → Bool
any_matches [] name = false
any_matches (f ∷ fs) name = match_filter f name || any_matches fs name

-- `CanPublish`
unfoldable pub can_publish : Local → Bytes → Bytes → Bool
unfolding any_matches
can_publish l identity name =
    if not (valid_name name) || has_wildcard name
    then false
    else any_matches (publish_of (lookup identity l.users)) name

-- The loop of `CanSubscribe`; `none` is the panic of CoversFilter on an empty permission.
unfoldable pub any_covers : List Bytes → Bytes → Option Bool
any_covers [] filter = some false
any_covers (f ∷ fs) filter =
    let rest = any_covers fs filter in
    elim (covers_filter f filter) [ none ↦ none | some true ↦ some true | some false ↦ rest ]

-- `CanSubscribe`
unfoldable pub can_subscribe : Local → Bytes → Bytes → Option Bool
unfolding any_covers
can_subscribe l identity filter =
    if not (is_valid_filter filter)
    then some false
    else any_covers (subscribe_of (lookup identity l.users)) filter
