-- ===== src/Protocol/Encoded.antt =====
-- internal/protocol/encoder.go: what EncodePublish accepts, and what it writes.
use orb_mq.Base.{
  ℕ, ◌+◌, ◌≤◌, Bytes, Bool-cases, false, ◌&&◌, ltb, ◌==◌, length, ◌≡◌, ◌≢◌, ◌⊎◌, refl, arith, inl,
  inr, sym, ap,
}
use orb_mq.Protocol.Packet.{PublishPacket}
use orb_mq.Protocol.Reader.{Result, ok, err, Error}
use orb_mq.Protocol.Wire.{max_remaining_length, check_topic_name}
use orb_mq.Protocol.Encoder.{
  length_bytes, encode_remaining_length, publish_length, publish_bytes, encode_publish,
}

pub Result-cases {ℓ} :
    {A : Type ℓ} (r : Result A) → ((e : Error) × (r ≡ err e)) ⊎ ((a : A) × (r ≡ ok a))
Result-cases (ok a) = inr (a, refl)
Result-cases (err e) = inl (e, refl)

pub ok_inj {ℓ} : {A : Type ℓ} {a b : A} → ok a ≡ ok b → a ≡ b
ok_inj {a} e = ap (λ r. elim r [ ok x ↦ x | err e ↦ a ]) e

-- The size of the body that EncodePublish announces.
abbrev pub body_length : PublishPacket → ℕ
body_length p = publish_length p + length p.payload

pub record IsEncodable (p : PublishPacket) : Type 0 where
  pub qos : p.qos ≤ 1
  pub id : (p.qos ≡ 0) ⊎ (p.packet_id ≢ 0)
  pub dup : (p.qos ≢ 0) ⊎ (p.dup ≡ false)
  pub topic : check_topic_name p.topic ≡ ok tt
  pub fits : body_length p ≤ max_remaining_length

-- An encoding is the one that the packet's fields give.
pub encode_publish_inv :
    (p : PublishPacket) (raw : Bytes)
    → encode_publish p ≡ ok raw
    → IsEncodable p × (raw ≡ publish_bytes p (length_bytes 4 (body_length p)))
unfolding encode_publish encode_remaining_length
encode_publish_inv p raw h = elim (Bool-cases (ltb 1 p.qos)) [
  | inl a ↦ cc (rw (encode_publish, a) at h)
  | inr a ↦ elim (Bool-cases (ltb 0 p.qos && p.packet_id == 0)) [
    | inl b ↦ cc (rw (encode_publish, a, b) at h)
    | inr b ↦ elim (Bool-cases (p.qos == 0 && p.dup)) [
      | inl c ↦ cc (rw (encode_publish, a, b, c) at h)
      | inr c ↦ elim (Result-cases (check_topic_name p.topic)) [
        | inl (e, d) ↦ cc (rw (encode_publish, a, b, c, d) at h)
        | inr (tt, d) ↦ elim (Bool-cases (ltb max_remaining_length (body_length p))) [
          | inl f ↦ cc (rw (encode_publish, a, b, c, d, f) at h)
          | inr f ↦ (
            record {
              qos = ground arith;
              id = ground arith;
              dup = ground arith;
              topic = d;
              fits = ground arith;
            },
            sym (ok_inj (rw (encode_publish, a, b, c, d, f, encode_remaining_length) at h)),
          )
        ]
      ]
    ]
  ]
]

pub encode_publish_ok :
    (p : PublishPacket)
    → IsEncodable p
    → encode_publish p ≡ ok (publish_bytes p (length_bytes 4 (body_length p)))
unfolding encode_publish encode_remaining_length
encode_publish_ok p v =
    let a : ltb 1 p.qos ≡ false = ground (arith, v.qos) in
    let b : (ltb 0 p.qos && p.packet_id == 0) ≡ false = ground (arith, v.id) in
    let c : (p.qos == 0 && p.dup) ≡ false = ground (arith, v.dup) in
    let f : ltb max_remaining_length (body_length p) ≡ false = ground (arith, v.fits) in
    rw (encode_publish, a, b, c, v.topic, f, encode_remaining_length) refl
