-- ===== src/Auth/Credentials.antt =====
-- internal/auth: what a password hash verifies, and whom Authenticate identifies.
use orb_mq.Base.{
  ℕ, ◌+◌, ◌<◌, Bytes, bytes_eq, bytes_eq_iff, bytes_Eq, lookup, Bool, Bool-cases, Option-cases,
  true, false, ltb, ltb→lt, ◌&&◌, ◌==◌, ◌≡◌, ◌↔◌, inl, inr, refl, arith, if◌then◌else◌, [], ◌∷◌,
  ◌++◌, none, some, some_inj, length, subst, sym, ap, ◌∙◌,
}
use orb_mq.Protocol.Wire.{contains_byte}
use orb_mq.Auth.Password.{
  Crypto, IsCrypto, PasswordHash, split_at_byte, scheme, rounds, hash_password, decode_parts,
  parse_password_hash, verify, verify_password,
}
use orb_mq.Auth.Local.{
  Entry, Local, is_known, hash_of, identified, busy_slots, bad_credentials, begin_authenticate,
  finish_authenticate, resume_authenticate, authenticate,
}

split_at_byte-none : (c : ℕ) (s : Bytes) → contains_byte c s ≡ false → split_at_byte c s ≡ s ∷ []
unfolding split_at_byte contains_byte
split_at_byte-none c [] h = refl
split_at_byte-none c (x ∷ s) h = ground (arith, split_at_byte-none c s)

split_at_byte-append :
    (c : ℕ) (l s : Bytes)
    → contains_byte c l ≡ false
    → split_at_byte c (l ++ c ∷ s) ≡ l ∷ split_at_byte c s
unfolding split_at_byte contains_byte
split_at_byte-append c [] s h = ground arith
split_at_byte-append c (x ∷ l) s h = ground (arith, split_at_byte-append c l s)

verify_iff :
    (k : Crypto) (h : PasswordHash) (password : Bytes)
    → (verify k h password ≡ true) ↔ (k.derive_key password h.salt ≡ some h.key)
unfolding verify
verify_iff k h password = elim (Option-cases (k.derive_key password h.salt)) [
  | inl e ↦ (λ q. cc (rw (verify, e) at q), λ q. cc (q, e))
  | inr (key, e) ↦ (
    λ q. e ∙ ap some ((bytes_eq_iff key h.key).0 (rw (verify, e) at q)),
    λ q. rw (verify, e) ((bytes_eq_iff key h.key).1 (some_inj (sym e ∙ q))),
  )
]

verify_password_parsed :
    (k : Crypto) (text password : Bytes) (h : PasswordHash)
    → parse_password_hash k text ≡ some h
    → verify_password k text password ≡ some (verify k h password)
unfolding verify_password
verify_password_parsed k text password h e = rw (verify_password, e) refl

module _ (k : Crypto) (laws : IsCrypto k) where
  decode_parts-encode :
      (salt key : Bytes)
      → length salt ≡ 16
      → length key ≡ 32
      → decode_parts k (k.encode_base64 salt) (k.encode_base64 key)
        ≡ some (record { salt = salt; key = key })
  unfolding decode_parts
  decode_parts-encode salt key a b =
      let sizes : (length salt == 16 && length key == 32) ≡ true = ground arith in
      rw (decode_parts, laws.decode-encode salt, laws.decode-encode key, sizes) refl

  parse_password_hash-parts :
      (salt key : Bytes)
      → length salt ≡ 16
      → length key ≡ 32
      → parse_password_hash k (
          scheme
          ++ (b'$' ∷ (rounds ++ (b'$' ∷ (k.encode_base64 salt ++ (b'$' ∷ k.encode_base64 key))))))
        ≡ some (record { salt = salt; key = key })
  unfolding parse_password_hash bytes_eq contains_byte
  parse_password_hash-parts salt key a b =
      rw
        (
          split_at_byte-append b'$' scheme
              (rounds ++ (b'$' ∷ (k.encode_base64 salt ++ (b'$' ∷ k.encode_base64 key)))) refl,
          split_at_byte-append b'$' rounds (k.encode_base64 salt ++ (b'$' ∷ k.encode_base64 key))
              refl,
          split_at_byte-append b'$' (k.encode_base64 salt) (k.encode_base64 key)
              (laws.alphabet salt),
          split_at_byte-none b'$' (k.encode_base64 key) (laws.alphabet key),
        )
        (decode_parts-encode salt key a b)

  -- A password hash of a salt of 16 bytes verifies a password exactly if the same key is derived
  -- from it; so it verifies the password that was hashed.
  pub verify_password-hash_password :
      (password salt text key : Bytes)
      → length salt ≡ 16
      → k.derive_key password salt ≡ some key
      → hash_password k password salt ≡ some text
      → (verify_password k text password ≡ some true)
        × ((other : Bytes)
            → (verify_password k text other ≡ some true) ↔ (k.derive_key other salt ≡ some key))
  unfolding hash_password
  verify_password-hash_password password salt text key a d h =
      let hash : PasswordHash = record { salt = salt; key = key } in
      let parsed : parse_password_hash k text ≡ some hash =
        subst (λ t. parse_password_hash k t ≡ some hash) (some_inj (rw (hash_password, d) at h))
          (parse_password_hash-parts salt key a (laws.key_length password salt key d)) in
      let result = λ (other : Bytes). verify_password_parsed k text other hash parsed in
      (
        result password ∙ ap some ((verify_iff k hash password).1 d),
        λ other. (
          λ q. (verify_iff k hash other).0 (some_inj (sym (result other) ∙ q)),
          λ q. result other ∙ ap some ((verify_iff k hash other).1 q),
        ),
      )

-- Whom Authenticate identifies: no context has ended, a slot is free, and the password is the user's.
pub record Identifies (k : Crypto) (late late' : Bool) (username password : Bytes) (l : Local)
    (id : Bytes) : Type 0 where
  pub in_time : (late ≡ false) × (late' ≡ false)
  pub slot : l.busy < l.slots
  pub same : id ≡ username
  pub password_ok :
      (e : Entry) × (lookup username l.users ≡ some e)
      × (k.derive_key password e.hash.salt ≡ some e.hash.key)

-- The check of the password by a user that the policy has.
abbrev Matches : Crypto → Bytes → Bytes → Local → Bytes → Type 0
Matches k username password l id =
    (id ≡ username)
    × ((e : Entry) × (lookup username l.users ≡ some e)
        × (k.derive_key password e.hash.salt ≡ some e.hash.key))

identified_inj : {a b : Bytes} → identified a ≡ identified b → a ≡ b
identified_inj {a} e = ap (λ o. elim o [ identified x ↦ x | _ ↦ a ]) e

module _ (k : Crypto) (username password : Bytes) (l : Local) where
  finish_known :
      (u : Entry)
      → lookup username l.users ≡ some u
      → (finish_authenticate k false username password l).0
        ≡ (if verify k u.hash password then identified username else bad_credentials)
  unfolding finish_authenticate is_known
  finish_known u e = rw (finish_authenticate, is_known, hash_of, e) refl

  finish_unknown :
      lookup username l.users ≡ none
      → (finish_authenticate k false username password l).0 ≡ bad_credentials
  unfolding finish_authenticate is_known
  finish_unknown e = rw (finish_authenticate, is_known, e) refl

  finish_in_time :
      (id : Bytes)
      → ((finish_authenticate k false username password l).0 ≡ identified id)
        ↔ Matches k username password l id
  finish_in_time id = elim (Option-cases (lookup username l.users)) [
    | inl e ↦ (λ h. cc (finish_unknown e, h), λ m. cc (e, m.1.1))
    | inr (u, e) ↦ elim (Bool-cases (verify k u.hash password)) [
      | inl q ↦ (
        λ h. (
          sym (identified_inj (rw (finish_known u e, q) at h)),
          (u, e, (verify_iff k u.hash password).0 q),
        ),
        λ m. rw (finish_known u e, q) (ap identified (sym m.0)),
      )
      | inr q ↦ (
        λ h. cc (rw (finish_known u e, q) at h),
        λ m.
            let same : m.1.0 ≡ u = some_inj (sym m.1.1 ∙ e) in
            cc (
              q,
              (verify_iff k u.hash password).1 (
                  subst (λ (x : Entry). k.derive_key password x.hash.salt ≡ some x.hash.key) same
                    m.1.2),
            ),
      )
    ]
  ]

begin_busy :
    (l : Local) → ltb l.busy l.slots ≡ false → begin_authenticate false l ≡ (some busy_slots, l)
unfolding begin_authenticate
begin_busy l q = rw q refl

begin_free :
    (l : Local)
    → ltb l.busy l.slots ≡ true
    → begin_authenticate false l ≡ (none, record l { busy = l.busy + 1 })
unfolding begin_authenticate
begin_free l q = rw q refl

authenticate_busy :
    (k : Crypto) (late' : Bool) (username password : Bytes) (l : Local)
    → ltb l.busy l.slots ≡ false
    → authenticate k false late' username password l ≡ (busy_slots, l)
unfolding authenticate
authenticate_busy k late' username password l q =
    ap (resume_authenticate k late' username password) (begin_busy l q)

authenticate_free :
    (k : Crypto) (late' : Bool) (username password : Bytes) (l : Local)
    → ltb l.busy l.slots ≡ true
    → authenticate k false late' username password l
      ≡ finish_authenticate k late' username password (record l { busy = l.busy + 1 })
unfolding authenticate
authenticate_free k late' username password l q =
    ap (resume_authenticate k late' username password) (begin_free l q)

-- Authenticate identifies a client exactly under these conditions, as the user that it names, and
-- gives back the slot that it took, whatever it answers.
pub authenticate_iff :
    (k : Crypto) (late late' : Bool) (username password id : Bytes) (l : Local)
    → (((authenticate k late late' username password l).0 ≡ identified id)
        ↔ Identifies k late late' username password l id)
      × ((authenticate k late late' username password l).1.busy ≡ l.busy)
unfolding authenticate begin_authenticate finish_authenticate
authenticate_iff k true late' username password id l = ((λ h. cc h, λ i. cc i.in_time.0), refl)
authenticate_iff k false true username password id l = elim (Bool-cases (ltb l.busy l.slots)) [
  | inr q ↦
      rw (authenticate_busy k true username password l q) ((λ h. cc h, λ i. cc i.in_time.1), refl)
  | inl q ↦
      rw (authenticate_free k true username password l q)
        ((λ h. cc h, λ i. cc i.in_time.1), omega arith)
]
authenticate_iff k false false username password id l = elim (Bool-cases (ltb l.busy l.slots)) [
  | inr q ↦
      rw (authenticate_busy k false username password l q)
        ((λ h. cc h, λ i. ground (arith, i.slot)), refl)
  | inl q ↦
      let (to, from) = finish_in_time k username password (record l { busy = l.busy + 1 }) id in
      rw (authenticate_free k false username password l q) (
        (
          λ h. record {
            in_time = (refl, refl);
            slot = ltb→lt _ _ q;
            same = (to h).0;
            password_ok = (to h).1;
          },
          λ i. from (i.same, i.password_ok),
        ),
        omega arith,
      )
]
