-- ===== src/Broker/Retained.antt =====
-- internal/broker/broker.go: the limits and the counters of the retained messages.
use orb_mq.Base.{
  ℕ, ◌+◌, ◌≤◌, Bytes, Map, bytes_Eq, bytes_eq_iff, lookup, insert, delete, Distinct,
  Distinct-insert, Distinct-delete, delete_absent, ◌==◌, Bool-cases, inl, inr, if◌then◌else◌, [],
  ◌∷◌, length, ◌≡◌, refl, arith, length-delete-le,
}
use orb_mq.Protocol.Packet.{PublishPacket}
use orb_mq.Broker.{Broker, message_size, retained_size, is_absent, kept, exceeds, update_retained}

unfoldable pub total_size : Map Bytes PublishPacket → ℕ
total_size [] = 0
total_size ((name, p) ∷ m) = message_size p + total_size m

-- Counters that are those of the map, no topic twice, and both limits kept.
pub record IsBounded (b : Broker) : Type 0 where
  pub messages : b.stats.retained_messages ≡ length b.retained
  pub bytes : b.stats.retained_bytes ≡ total_size b.retained
  pub distinct : Distinct b.retained
  pub messages_bound : length b.retained ≤ b.limits.max_messages
  pub bytes_bound : total_size b.retained ≤ b.limits.max_bytes

total_size-insert :
    (name : Bytes) (p : PublishPacket) (m : Map Bytes PublishPacket)
    → total_size (insert name p m) + retained_size (lookup name m) ≡ total_size m + message_size p
unfolding total_size insert lookup
total_size-insert name p [] = omega arith
total_size-insert name p ((j, q) ∷ m) = ground (arith, total_size-insert name p m)

total_size-delete :
    (name : Bytes) (m : Map Bytes PublishPacket)
    → Distinct m
    → total_size (delete name m) + retained_size (lookup name m) ≡ total_size m
unfolding total_size delete lookup
total_size-delete name [] d = omega arith
total_size-delete name ((j, q) ∷ m) d =
    ground (arith, bytes_eq_iff j name, delete_absent name m, total_size-delete name m d.1)

length-insert :
    (name : Bytes) (p : PublishPacket) (m : Map Bytes PublishPacket)
    → length (insert name p m) ≡ (if is_absent (lookup name m) then length m + 1 else length m)
unfolding insert lookup
length-insert name p [] = omega arith
length-insert name p ((j, q) ∷ m) = ground (arith, length-insert name p m)

-- Whatever it is given, and whether it accepts or refuses, `updateRetained` keeps the bounds.
pub update_retained-IsBounded :
    (b : Broker) (p : PublishPacket) → IsBounded b → IsBounded (update_retained b p).1
unfolding update_retained
update_retained-IsBounded b p v = elim (Bool-cases (length p.payload == 0)) [
  | inl z ↦ simp z (record {
    messages = refl;
    bytes = omega (arith, v.bytes, total_size-delete p.topic b.retained v.distinct);
    distinct = Distinct-delete p.topic b.retained v.distinct;
    messages_bound = omega (arith, length-delete-le p.topic b.retained, v.messages_bound);
    bytes_bound = omega (arith, v.bytes_bound, total_size-delete p.topic b.retained v.distinct);
  })
  | inr z ↦ elim (Bool-cases (exceeds b p)) [
    | inl e ↦
        simp (z, e)
          (record {
            messages = v.messages;
            bytes = v.bytes;
            distinct = v.distinct;
            messages_bound = v.messages_bound;
            bytes_bound = v.bytes_bound;
          })
    | inr e ↦
        simp (z, e)
          (record {
            messages = refl;
            bytes = omega (arith, v.bytes, total_size-insert p.topic (kept p) b.retained);
            distinct = Distinct-insert p.topic (kept p) b.retained v.distinct;
            messages_bound =
                unfold exceeds in
                ground (arith, length-insert p.topic (kept p) b.retained, v.messages_bound);
            bytes_bound =
                unfold exceeds in
                ground (arith, total_size-insert p.topic (kept p) b.retained, v.bytes);
          })
  ]
]
