-- ===== src/Client/Tests.antt =====
-- A run of a client's queue: two packets, of which the connection takes the first.
use orb_mq.Base.{codes, false, true, [], ◌∷◌, refl}
use orb_mq.Client.{QueuedWrite, Client, new_client, enqueue, write_next, write_result}
use orb_mq.Client.Order.{Writes, opens, enqueues, writes, IsOrdered, Writes-IsOrdered}

abbrev ping : QueuedWrite
ping = record { data_bytes = 0xd0 ∷ 0 ∷ []; awaited = true; deadline = 0 }

abbrev ack : QueuedWrite
ack = record { data_bytes = 0x40 ∷ 2 ∷ 0 ∷ 1 ∷ []; awaited = false; deadline = 0 }

abbrev waiting : Client
waiting = (enqueue ack (enqueue ping (new_client (codes "c"))).1).1

abbrev half_written : Client
half_written = (write_next false false 2 waiting).1

half_written-Writes : Writes half_written (ping ∷ ack ∷ []) (ping ∷ []) (0xd0 ∷ 0 ∷ [])
unfolding enqueue write_next write_result
half_written-Writes =
    writes ping (ack ∷ []) false false 2 refl refl
      (enqueues ack (enqueues ping (opens (codes "c"))))

Writes-IsOrdered_example : IsOrdered half_written (ping ∷ ack ∷ []) (ping ∷ []) (0xd0 ∷ 0 ∷ [])
Writes-IsOrdered_example =
    Writes-IsOrdered half_written (ping ∷ ack ∷ []) (ping ∷ []) (0xd0 ∷ 0 ∷ []) half_written-Writes
