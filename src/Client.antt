-- ===== src/Client.antt =====
-- internal/client/client.go: the bounded queue of a connection, and the goroutine that writes it.
-- The connection and the clock are outside: what they answer to a write is an argument.
pub mod Order
mod Tests
use orb_mq.Base.{
  ℕ, ◌+◌, ◌*◌, Bytes, Bool, true, false, not, ◌&&◌, ◌||◌, ltb, ◌==◌, if◌then◌else◌, List, [], ◌∷◌,
  ◌++◌, Option, none, some, length,
}

-- `queuedWrite`; `awaited` tells whether it has a channel for its result, and a deadline of 0 is the
-- zero time.
pub record QueuedWrite : Type 0 where
  pub data_bytes : Bytes
  pub awaited : Bool
  pub deadline : ℕ

-- `closed` and `write_done` tell whether the channels `done` and `writeDone` are closed.
pub record Client : Type 0 where
  pub id : Bytes
  pub send_queue : List QueuedWrite
  pub closed : Bool
  pub write_done : Bool
  pub write_timeout : ℕ

abbrev pub capacity : ℕ
capacity = 1024

-- `New`, with a timeout in nanoseconds.
abbrev pub new_client : Bytes → Client
new_client id = record {
  id = id;
  send_queue = [];
  closed = false;
  write_done = false;
  write_timeout = 30 * 1000000000;
}

-- `SetWriteTimeout`: whether there is no error.
unfoldable pub set_write_timeout : ℕ → Client → Bool × Client
set_write_timeout timeout c =
    if timeout == 0 then (false, c) else (true, record c { write_timeout = timeout })

pub data Enqueued : Type 0 where
  queued conn_closed queue_full : Enqueued

-- `enqueue`
unfoldable pub enqueue : QueuedWrite → Client → Enqueued × Client
enqueue w c =
    if c.closed
    then (conn_closed, c)
    else if ltb (length c.send_queue) capacity
    then (queued, record c { send_queue = c.send_queue ++ w ∷ [] })
    else (queue_full, c)

-- `Close`; a second call changes nothing.
unfoldable pub close : Client → Client
close c = record c { closed = true }

-- The deadline of a write that begins now.
unfoldable pub write_deadline : ℕ → ℕ → QueuedWrite → ℕ
write_deadline now timeout w =
    if not (w.deadline == 0) && ltb w.deadline (now + timeout) then w.deadline else now + timeout

pub data WriteResult : Type 0 where
  written failed short_write : WriteResult

-- What the connection answers: an error of SetWriteDeadline, one of Write, or the bytes written.
unfoldable pub write_result : Bool → Bool → ℕ → QueuedWrite → WriteResult
write_result deadline_fails write_fails n w =
    if deadline_fails || write_fails
    then failed
    else if n == length w.data_bytes
    then written
    else short_write

-- The loop of `writeLoop` behind a write.
abbrev pub written_back : List QueuedWrite → WriteResult → Client → Client
written_back rest written c = record c { send_queue = rest }
written_back rest r c = record c { send_queue = rest; closed = true; write_done = true }

-- A round of `writeLoop` that takes a write, with the result that it gives back.
unfoldable pub write_next : Bool → Bool → ℕ → Client → Option (QueuedWrite × WriteResult) × Client
write_next deadline_fails write_fails n c = elim c.send_queue [
  | [] ↦ (none, c)
  | w ∷ rest ↦
      let r = write_result deadline_fails write_fails n w in (some (w, r), written_back rest r c)
]

-- A round of `writeLoop` that finds the connection closed.
unfoldable pub stop_writing : Client → Client
stop_writing c = if c.closed then record c { write_done = true } else c
