-- ===== src/Client/Order.antt =====
-- internal/client/client.go: what reaches the connection, in which order, and the bound of the queue.
use orb_mq.Base.{
  ℕ, ◌≤◌, Bytes, Bool, Bool-cases, if_rule, true, false, ltb, ltb→lt, ◌==◌, if◌then◌else◌, List, [],
  ◌∷◌, ◌++◌, append_assoc, append-nil, Option, none, some, length, length-append, take, drop,
  take-append-drop, take-append_self, ==_iff, ◌≡◌, inl, inr, refl, arith, subst, sym, ap, ◌∙◌,
}
use orb_mq.Client.{
  QueuedWrite, Client, capacity, new_client, set_write_timeout, Enqueued, queued, conn_closed,
  queue_full, enqueue, close, WriteResult, written, failed, short_write, write_result, written_back,
  write_next, stop_writing,
}

-- The writes that a caller of enqueue was told are queued.
abbrev pub told : Enqueued → QueuedWrite → List QueuedWrite
told queued w = w ∷ []
told conn_closed w = []
told queue_full w = []

-- The writes that the writer reports as written.
abbrev pub reported : Option (QueuedWrite × WriteResult) → List QueuedWrite
reported none = []
reported (some (w, written)) = w ∷ []
reported (some (w, failed)) = []
reported (some (w, short_write)) = []

-- The bytes that the connection takes of one call of Write: none where SetWriteDeadline failed, so
-- that there was no call, and otherwise the first `n`, whether or not Write gives an error.
abbrev pub on_wire : Bool → ℕ → Bytes → Bytes
on_wire deadline_fails n b = if deadline_fails then [] else take n b

abbrev pub bytes_of : List QueuedWrite → Bytes
bytes_of [] = []
bytes_of (w ∷ ws) = w.data_bytes ++ bytes_of ws

-- Any sequence of calls and rounds of the writer: the writes that callers were told are queued, those
-- that the writer reported as written, and the bytes that the connection took. A round that takes
-- a write is one of a writer that has not returned.
pub data Writes : Client → List QueuedWrite → List QueuedWrite → Bytes → Type 0 where
  opens : (id : Bytes) → Writes (new_client id) [] [] []
  sets_timeout :
      {c : Client} {accepted done : List QueuedWrite} {wire : Bytes} (timeout : ℕ)
      → Writes c accepted done wire
      → Writes (set_write_timeout timeout c).1 accepted done wire
  enqueues :
      {c : Client} {accepted done : List QueuedWrite} {wire : Bytes} (w : QueuedWrite)
      → Writes c accepted done wire
      → Writes (enqueue w c).1 (accepted ++ told (enqueue w c).0 w) done wire
  writes :
      {c : Client} {accepted done : List QueuedWrite} {wire : Bytes} (w : QueuedWrite)
      (rest : List QueuedWrite) (deadline_fails write_fails : Bool) (n : ℕ)
      → c.send_queue ≡ w ∷ rest
      → c.write_done ≡ false
      → Writes c accepted done wire
      → Writes
          (write_next deadline_fails write_fails n c).1
          accepted
          (done ++ reported (write_next deadline_fails write_fails n c).0)
          (wire ++ on_wire deadline_fails n w.data_bytes)
  closes :
      {c : Client} {accepted done : List QueuedWrite} {wire : Bytes}
      → Writes c accepted done wire
      → Writes (close c) accepted done wire
  stops :
      {c : Client} {accepted done : List QueuedWrite} {wire : Bytes}
      → Writes c accepted done wire
      → Writes (stop_writing c) accepted done wire

-- The connection took the bytes of the writes that were reported, whole and in order, and then at
-- most the start of one more, `part`, which was not reported and behind which the writer has
-- returned. The writes that callers were told of are those reported, then the one cut off, if there
-- is one, then those in the queue, which is within its bound.
pub record IsOrdered (c : Client) (accepted done : List QueuedWrite) (wire : Bytes) : Type 0 where
  pub lost : List QueuedWrite
  pub part : Bytes
  pub unsent : Bytes
  pub order : accepted ≡ done ++ (lost ++ c.send_queue)
  pub stream : wire ≡ bytes_of done ++ part
  pub one : length lost ≤ 1
  pub cut : bytes_of lost ≡ part ++ unsent
  pub complete : c.write_done ≡ false → (lost ≡ []) × (part ≡ [])
  pub returned : c.write_done ≡ true → c.closed ≡ true
  pub bound : length c.send_queue ≤ capacity

bytes_of-append : (a b : List QueuedWrite) → bytes_of (a ++ b) ≡ bytes_of a ++ bytes_of b
bytes_of-append [] b = refl
bytes_of-append (w ∷ a) b =
    ap (λ s. w.data_bytes ++ s) (bytes_of-append a b)
    ∙ sym (append_assoc w.data_bytes (bytes_of a) (bytes_of b))

enqueue-IsOrdered :
    (w : QueuedWrite) (c : Client) (accepted done : List QueuedWrite) (wire : Bytes)
    → IsOrdered c accepted done wire
    → IsOrdered (enqueue w c).1 (accepted ++ told (enqueue w c).0 w) done wire
unfolding enqueue
enqueue-IsOrdered w c accepted done wire v = elim (Bool-cases c.closed) [
  | inl q ↦ simp (enqueue, q, append-nil accepted) v
  | inr q ↦ elim (Bool-cases (ltb (length c.send_queue) capacity)) [
    | inr r ↦ simp (enqueue, q, r, append-nil accepted) v
    | inl r ↦
        simp (enqueue, q, r)
          (record {
            lost = v.lost;
            part = v.part;
            unsent = v.unsent;
            order =
                ap (λ l. l ++ w ∷ []) v.order
                ∙ (append_assoc done (v.lost ++ c.send_queue) (w ∷ [])
                    ∙ ap (λ l. done ++ l) (append_assoc v.lost c.send_queue (w ∷ [])));
            stream = v.stream;
            one = v.one;
            cut = v.cut;
            complete = v.complete;
            returned = λ h. sym q ∙ v.returned h;
            bound = omega (arith, ltb→lt _ _ r, length-append c.send_queue (w ∷ []));
          })
  ]
]

-- A round of the writer on `w`, of which the connection took `taken`.
module _ (c : Client) (accepted done : List QueuedWrite) (wire : Bytes) (w : QueuedWrite)
    (rest : List QueuedWrite) (taken unsent : Bytes) (e : c.send_queue ≡ w ∷ rest)
    (d : c.write_done ≡ false) (v : IsOrdered c accepted done wire) where
  in_order : accepted ≡ done ++ w ∷ rest
  in_order =
      v.order ∙ (ap (λ l. done ++ (l ++ c.send_queue)) (v.complete d).0 ∙ ap (λ q. done ++ q) e)

  in_stream : wire ++ taken ≡ bytes_of done ++ taken
  in_stream =
      ap (λ s. s ++ taken)
        (v.stream ∙ (ap (λ s. bytes_of done ++ s) (v.complete d).1 ∙ append-nil (bytes_of done)))

  -- It is the last one.
  last-IsOrdered :
      w.data_bytes ≡ taken ++ unsent
      → IsOrdered
          (record c { send_queue = rest; closed = true; write_done = true })
          accepted
          (done ++ [])
          (wire ++ taken)
  last-IsOrdered h = record {
    lost = w ∷ [];
    part = taken;
    unsent = unsent;
    order = in_order ∙ ap (λ l. l ++ w ∷ rest) (sym (append-nil done));
    stream = in_stream ∙ ap (λ l. bytes_of l ++ taken) (sym (append-nil done));
    one = omega arith;
    cut = append-nil w.data_bytes ∙ h;
    complete = λ q. cc q;
    returned = λ q. refl;
    bound = omega (arith, v.bound, ap length e);
  }

  round-IsOrdered :
      (r : WriteResult)
      → (r ≡ written → taken ≡ w.data_bytes)
      → w.data_bytes ≡ taken ++ unsent
      → IsOrdered (written_back rest r c) accepted (done ++ reported (some (w, r))) (wire ++ taken)
  round-IsOrdered written whole h = record {
    lost = [];
    part = [];
    unsent = [];
    order = in_order ∙ sym (append_assoc done (w ∷ []) rest);
    stream =
        in_stream
        ∙ (ap (λ s. bytes_of done ++ s) (whole refl ∙ sym (append-nil w.data_bytes))
            ∙ (sym (bytes_of-append done (w ∷ [])) ∙ sym (append-nil (bytes_of (done ++ w ∷ [])))));
    one = omega arith;
    cut = refl;
    complete = λ q. (refl, refl);
    returned = v.returned;
    bound = omega (arith, v.bound, ap length e);
  }
  round-IsOrdered failed whole h = last-IsOrdered h
  round-IsOrdered short_write whole h = last-IsOrdered h

take_all : (s : Bytes) → take (length s) s ≡ s
take_all s = subst (λ x. take (length s) x ≡ s) (append-nil s) (take-append_self s [])

-- A write that is reported as written reached the connection whole.
written_whole :
    (deadline_fails write_fails : Bool) (n : ℕ) (w : QueuedWrite)
    → write_result deadline_fails write_fails n w ≡ written
    → on_wire deadline_fails n w.data_bytes ≡ w.data_bytes
unfolding write_result
written_whole true wf n w h = cc h
written_whole false true n w h = cc h
written_whole false false n w h = elim (Bool-cases (n == length w.data_bytes)) [
  | inl q ↦
      ap (λ k. take k w.data_bytes) ((==_iff n (length w.data_bytes)).0 q) ∙ take_all w.data_bytes
  | inr q ↦ cc (rw (write_result, q) at h)
]

abbrev off_wire : Bool → ℕ → Bytes → Bytes
off_wire deadline_fails n b = if deadline_fails then b else drop n b

on_off_wire :
    (deadline_fails : Bool) (n : ℕ) (b : Bytes)
    → b ≡ on_wire deadline_fails n b ++ off_wire deadline_fails n b
on_off_wire true n b = refl
on_off_wire false n b = sym (take-append-drop n b)

write_next_at :
    (deadline_fails write_fails : Bool) (n : ℕ) (c : Client) (w : QueuedWrite)
    (rest : List QueuedWrite)
    → c.send_queue ≡ w ∷ rest
    → write_next deadline_fails write_fails n c ≡ (
      some (w, write_result deadline_fails write_fails n w),
      written_back rest (write_result deadline_fails write_fails n w) c,
    )
unfolding write_next
write_next_at df wf n c w rest e = simp (write_next, e)

restated :
    (c c' : Client) (accepted done : List QueuedWrite) (wire : Bytes)
    → c'.send_queue ≡ c.send_queue
    → (c'.write_done ≡ false → c.write_done ≡ false)
    → (c'.write_done ≡ true → c'.closed ≡ true)
    → IsOrdered c accepted done wire
    → IsOrdered c' accepted done wire
restated c c' accepted done wire e d q v = record {
  lost = v.lost;
  part = v.part;
  unsent = v.unsent;
  order = v.order ∙ ap (λ q. done ++ (v.lost ++ q)) (sym e);
  stream = v.stream;
  one = v.one;
  cut = v.cut;
  complete = λ h. v.complete (d h);
  returned = q;
  bound = omega (arith, v.bound, ap length e);
}

-- Whatever the calls and the answers of the connection: the bytes that it took are a beginning of
-- those of the accepted writes, in the order of their acceptance and without a gap. While the writer
-- runs they are those of the writes reported as written, and all other accepted writes wait in the
-- queue, which holds 1024 at most.
pub Writes-IsOrdered :
    (c : Client) (accepted done : List QueuedWrite) (wire : Bytes)
    → Writes c accepted done wire
    → IsOrdered c accepted done wire
unfolding set_write_timeout close stop_writing
Writes-IsOrdered _ _ _ _ (opens id) = record {
  lost = [];
  part = [];
  unsent = [];
  order = refl;
  stream = refl;
  one = omega arith;
  cut = refl;
  complete = λ h. (refl, refl);
  returned = λ h. cc h;
  bound = omega arith;
}
Writes-IsOrdered _ _ _ _ (sets_timeout {c} {accepted} {done} {wire} timeout s) =
    let v = Writes-IsOrdered c accepted done wire s in
    elim (Bool-cases (timeout == 0)) [
      | inl q ↦ rw (set_write_timeout, q) v
      | inr q ↦
          rw (set_write_timeout, q) (restated c _ accepted done wire refl (λ h. h) v.returned v)
    ]
Writes-IsOrdered _ _ _ _ (enqueues {c} {accepted} {done} {wire} w s) =
    enqueue-IsOrdered w c accepted done wire (Writes-IsOrdered c accepted done wire s)
Writes-IsOrdered _ _ _ _ (writes {c} {accepted} {done} {wire} w rest df wf n e d s) =
    let r = write_result df wf n w in
    let taken = on_wire df n w.data_bytes in
    subst (λ x. IsOrdered x.1 accepted (done ++ reported x.0) (wire ++ taken))
      (sym (write_next_at df wf n c w rest e))
      (round-IsOrdered c accepted done wire w rest taken (off_wire df n w.data_bytes) e d
        (Writes-IsOrdered c accepted done wire s) r (written_whole df wf n w)
        (on_off_wire df n w.data_bytes))
Writes-IsOrdered _ _ _ _ (closes {c} {accepted} {done} {wire} s) =
    restated c (close c) accepted done wire refl (λ h. h) (λ h. refl)
      (Writes-IsOrdered c accepted done wire s)
Writes-IsOrdered _ _ _ _ (stops {c} {accepted} {done} {wire} s) =
    let v = Writes-IsOrdered c accepted done wire s in
    if_rule (λ (x : Client). IsOrdered x accepted done wire) c.closed
      (record c { write_done = true }) c
      (λ q.
        restated c (record c { write_done = true }) accepted done wire refl (λ h. cc h) (λ h. q) v)
      (λ q. v)
