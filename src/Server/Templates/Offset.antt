-- ===== src/Server/Templates/Offset.antt =====
-- internal/server/server.go: publishPacketIDOffset against the encoder of internal/protocol, and the
-- test that the queue makes of a template.
use orb_mq.Base.{
  ℕ, zero, suc, ◌+◌, ◌/◌, ◌%◌, ◌≤◌, ◌<◌, Bytes, Bool, Bool-cases, true, false, not, ltb, ◌==◌,
  if◌then◌else◌, List, [], ◌∷◌, ◌++◌, append_assoc, take, drop, drop-append_self, take-append_self,
  length-append, length, bit_or, ◌≡◌, refl, arith, inl, inr, sym, ap, ◌∙◌, subst,
}
use orb_mq.Protocol.Packet.{PublishPacket}
use orb_mq.Protocol.Reader.{Result, ok}
use orb_mq.Protocol.Wire.{max_remaining_length}
use orb_mq.Protocol.Encoder.{
  put16, length_bytes, publish_flags, publish_id, publish_bytes, encode_publish,
}
use orb_mq.Protocol.Encoded.{Result-cases, ok_inj, body_length, encode_publish_inv}
use orb_mq.Protocol.Length.{capacity, last_group, more_groups}
use orb_mq.Session.Queue.{is_queued_publish}
use orb_mq.Server.Templates.{
  Template, size_loop, encoded_length_size, publish_packet_id_offset, template_packet,
  new_publish_template,
}

size_loop-length_bytes :
    (rounds fuel n : ℕ)
    → n < capacity rounds
    → rounds ≤ fuel
    → size_loop (suc fuel) n ≡ length (length_bytes (suc rounds) n)
unfolding size_loop
size_loop-length_bytes zero fuel n h le = rw (last_group 0 n (omega arith)) (ground arith)
size_loop-length_bytes (suc rounds) zero n h le = absurd (omega arith)
size_loop-length_bytes (suc rounds) (suc fuel) n h le = elim (Bool-cases (ltb n 128)) [
  | inl z ↦ rw (last_group (suc rounds) n (ground arith)) (ground arith)
  | inr z ↦
      let more : (n / 128 == 0) ≡ false = ground arith in
      rw (more_groups (suc rounds) n (ground arith), more)
        (ap suc (size_loop-length_bytes rounds fuel (n / 128) (omega arith) (omega arith)))
]

encoded_length_size-length_bytes :
    (n : ℕ) → n ≤ max_remaining_length → encoded_length_size n ≡ length (length_bytes 4 n)
unfolding encoded_length_size
encoded_length_size-length_bytes n h = size_loop-length_bytes 3 9 n (omega arith) (omega arith)

is_queued_publish-cons :
    (a : ℕ) (s : Bytes) (offset : ℕ)
    → a / 16 ≡ 3
    → a / 2 % 4 ≡ 1
    → 2 ≤ offset
    → offset + 2 ≤ suc (length s)
    → is_queued_publish (a ∷ s) offset ≡ true
unfolding is_queued_publish
is_queued_publish-cons a [] offset h q lo hi = absurd (omega arith)
is_queued_publish-cons a (b ∷ s) offset h q lo hi = ground arith

-- Behind a prefix of that length stands the rest.
drop-prefix : {A : Type 0} (n : ℕ) (xs ys : List A) → length xs ≡ n → drop n (xs ++ ys) ≡ ys
drop-prefix n xs ys h = subst (λ k. drop k (xs ++ ys) ≡ ys) h (drop-append_self xs ys)

-- What stands before the identifier.
abbrev pub prefix : PublishPacket → Bytes → Bytes
prefix p size = publish_flags p ∷ (size ++ (put16 (length p.topic) ++ p.topic))

publish_bytes-prefix :
    (p : PublishPacket) (size : Bytes)
    → publish_bytes p size ≡ prefix p size ++ (publish_id p ++ p.payload)
unfolding publish_bytes
publish_bytes-prefix p size = ap (λ s. publish_flags p ∷ s) (simp append_assoc)

length-prefix :
    (p : PublishPacket) (size : Bytes)
    → length (prefix p size) ≡ 1 + length size + 2 + length p.topic
length-prefix p size = omega (arith, length-append size (put16 (length p.topic) ++ p.topic))

-- The flags of a template: type 3, QoS 1.
template_flags :
    (p : PublishPacket)
    → p.qos ≡ 1
    → (publish_flags (template_packet p) / 16 ≡ 3) × (publish_flags (template_packet p) / 2 % 4 ≡ 1)
unfolding publish_flags
template_flags p q = rw q (flags p.retain)
  where
    flags :
        (r : Bool)
        → ((if r then bit_or (bit_or 0x30 2) 1 else bit_or 0x30 2) / 16 ≡ 3)
          × ((if r then bit_or (bit_or 0x30 2) 1 else bit_or 0x30 2) / 2 % 4 ≡ 1)
    flags true = (refl, refl)
    flags false = (refl, refl)

new_publish_template_inv :
    (encode : PublishPacket → Result Bytes) (p : PublishPacket) (t : Template)
    → new_publish_template encode p ≡ ok t
    → (p.qos ≡ 1)
      × (encode (template_packet p) ≡ ok t.raw)
      × (t.packet_id_offset ≡ publish_packet_id_offset p.topic (length p.payload))
unfolding new_publish_template
new_publish_template_inv encode p t h = elim (Bool-cases (not (p.qos == 1))) [
  | inl q ↦ cc (rw (new_publish_template, q) at h)
  | inr q ↦ elim (Result-cases (encode (template_packet p))) [
    | inl (e, r) ↦ cc (rw (new_publish_template, q, r) at h)
    | inr (raw, r) ↦
        let same = ok_inj (rw (new_publish_template, q, r) at h) in
        (
          ground arith,
          r ∙ ap (λ (x : Template). ok x.raw) same,
          sym (ap (λ (x : Template). x.packet_id_offset) same),
        )
  ]
]

-- What the offset of a template says of its bytes.
pub record IsTemplate (p : PublishPacket) (t : Template) : Type 0 where
  pub queued : is_queued_publish t.raw t.packet_id_offset ≡ true
  pub id_here : drop t.packet_id_offset t.raw ≡ put16 1 ++ p.payload
  pub before :
      take t.packet_id_offset t.raw
      ≡ prefix (template_packet p) (length_bytes 4 (body_length (template_packet p)))

-- A template that the server makes with the encoder has its identifier at the offset that the server
-- computes, in front of the payload, and is what the queue of a session takes.
pub new_publish_template-IsTemplate :
    (p : PublishPacket) (t : Template)
    → new_publish_template encode_publish p ≡ ok t
    → IsTemplate p t
unfolding publish_packet_id_offset
new_publish_template-IsTemplate p t h =
    let q = template_packet p in
    let (one, enc, off) = new_publish_template_inv encode_publish p t h in
    let (v, bytes) = encode_publish_inv q t.raw enc in
    let size = length_bytes 4 (body_length q) in
    let id : publish_id q ≡ put16 1 = rw one refl in
    let body : body_length q ≡ 2 + length p.topic + 2 + length p.payload = rw one refl in
    let n = 2 + length p.topic + 2 + length p.payload in
    let groups = encoded_length_size-length_bytes n (omega (arith, v.fits, body)) in
    let at_offset : length (prefix q size) ≡ t.packet_id_offset =
      omega (arith, length-prefix q size, groups, ap (λ k. length (length_bytes 4 k)) body, off) in
    let raw : t.raw ≡ prefix q size ++ (put16 1 ++ p.payload) =
      bytes ∙ (publish_bytes-prefix q size ∙ ap (λ i. prefix q size ++ (i ++ p.payload)) id) in
    let (type, level) = template_flags p one in
    record {
      queued =
          subst (λ r. is_queued_publish r t.packet_id_offset ≡ true) (sym raw)
            (is_queued_publish-cons (publish_flags q) _ t.packet_id_offset type level
              (omega (arith, at_offset, length-prefix q size))
              (omega (arith, at_offset, length-append (prefix q size) (put16 1 ++ p.payload))));
      id_here =
          subst (λ r. drop t.packet_id_offset r ≡ put16 1 ++ p.payload) (sym raw)
            (drop-prefix t.packet_id_offset (prefix q size) (put16 1 ++ p.payload) at_offset);
      before =
          subst (λ r. take t.packet_id_offset r ≡ prefix q size) (sym raw)
            (subst (λ k. take k (prefix q size ++ (put16 1 ++ p.payload)) ≡ prefix q size) at_offset
              (take-append_self (prefix q size) (put16 1 ++ p.payload)));
    }
