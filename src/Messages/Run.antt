-- ===== src/Messages/Run.antt =====
-- Sequences of messages put into a session's queue and taken from it, and the packets that are
-- refused (msm/eva/hfi_response_handler.c, msm/eva/msm_cvp.c).
use eva_driver.Prelude.{
  ◌+◌, ◌*◌, ◌≤◌, ◌<◌, ◌≡◌, sym, ap, ◌∙◌, ◌⊎◌, inl, inr, Bool, true, false, Option, none, some, List,
  [], ◌∷◌, ◌++◌, append_assoc, append-nil, arith,
}
use eva_driver.Prelude.Tests.{ltb, Bool-cases, if◌then◌else◌}
use eva_driver.Prelude.Lists.{length}
use eva_driver.Prelude.Errno.{Rc, success, failed, hfi_error, einval, enomem, e2big}
use eva_driver.Messages.{
  Message, SessionQueue, Queues, Incoming, msg_pending, add_message, process_session_msg, is_fence,
  max_num_msgs_per_session, max_hfi_pkt_size,
}
use eva_driver.Messages.Order.{
  IsCounted, IsOpen, Picks, closed, empty, unmatched, oldest, matched, taken, msg_pending-Picks,
  Picks-IsCounted, add_message-IsCounted,
}

-- A message comes from the firmware, or a client asks for one.
pub data Op : Type 0 where
  put : Message → Op
  get : Op

-- What a sequence leaves: the messages that were accepted, those that clients got, and the queue.
pub record Ran : Type 0 where
  pub accepted : List Message
  pub received : List Message
  pub queue : SessionQueue

abbrev pub accepted_by : Rc → Message → List Message → List Message
accepted_by success m ms = m ∷ ms
accepted_by (failed e) m ms = ms
accepted_by (hfi_error n) m ms = ms

abbrev pub received_by : Option Message → List Message → List Message
received_by none ms = ms
received_by (some m) ms = m ∷ ms

-- Each operation as the driver does it, one after another.
pub run : List Op → SessionQueue → Ran
run [] q = record { accepted = []; received = []; queue = q }
run (put m ∷ ops) q =
    let (rc, q') = add_message m q in
    let rest = run ops q' in record rest { accepted = accepted_by rc m rest.accepted }
run (get ∷ ops) q =
    let (ready, m, q') = msg_pending none q in
    let rest = run ops q' in record rest { received = received_by m rest.received }

add_message-keeps :
    (m : Message) (q : SessionQueue)
    → IsCounted q
    → IsOpen q
    → let (rc, q') = add_message m q in
      IsOpen q'
      × (((rc ≡ success) × (q'.msgs ≡ q.msgs ++ (m ∷ []))) ⊎ ((rc ≡ failed enomem) × (q' ≡ q)))
unfolding add_message
add_message-keeps m q c o = ground arith

get-fifo :
    (ops : List Op) (q : SessionQueue)
    → IsCounted q
    → IsOpen q
    → Picks none q (msg_pending none q)
    → ((q' : SessionQueue)
        → IsCounted q'
        → IsOpen q'
        → (run ops q').received ++ (run ops q').queue.msgs ≡ q'.msgs ++ (run ops q').accepted)
    → (run (get ∷ ops) q).received ++ (run (get ∷ ops) q).queue.msgs
      ≡ q.msgs ++ (run (get ∷ ops) q).accepted
unfolding run
get-fifo ops q c o (closed s e) ih = absurd (ground (arith, o, s))
get-fifo ops q c o (empty o' n e) ih = rw e (ih q c o)
get-fifo ops q c o (unmatched k o' t n e) ih = absurd (cc)
get-fifo ops q c o (matched k m rest o' t i e) ih = absurd (cc)
get-fifo ops q c o (oldest m rest o' t w e) ih = rw e (
    ap (λ l. m ∷ l) (ih (taken q rest) (rw e at (Picks-IsCounted c (oldest m rest o' t w e))) o)
    ∙ ap (λ l. l ++ (run ops (taken q rest)).accepted) (sym w))

-- Messages are neither lost nor made up, doubled or reordered: over any sequence of operations on
-- an open queue, those that clients got, followed by those that are left, are those that were there
-- at first, followed by those that were accepted.
pub run-fifo :
    (ops : List Op) (q : SessionQueue)
    → IsCounted q
    → IsOpen q
    → (run ops q).received ++ (run ops q).queue.msgs ≡ q.msgs ++ (run ops q).accepted
unfolding run
run-fifo [] q c o = sym (append-nil q.msgs)
run-fifo (put m ∷ ops) q c o =
    let (o', what) = add_message-keeps m q c o in
    let q' = (add_message m q).1 in
    let acc = (run ops q').accepted in
    let ih = run-fifo ops q' (add_message-IsCounted m q c) o' in
    elim what [
      | inl (ok, e) ↦ rw ok (ih ∙ ap (λ l. l ++ acc) e ∙ append_assoc q.msgs (m ∷ []) acc)
      | inr (bad, same) ↦ rw bad (ih ∙ ap (λ (r : SessionQueue). r.msgs ++ acc) same)
    ]
run-fifo (get ∷ ops) q c o =
    get-fifo ops q c o (msg_pending-Picks none q c) (λ q' c' o'. run-fifo ops q' c' o')

-- What a packet must do to the queue that its fence bit names, if the instance is there.
abbrev pub Delivers : Bool → Incoming → SessionQueue → Rc × SessionQueue → Type 0
Delivers memory p q (rc, q') =
    ((rc ≡ success)
      × (p.size ≤ max_hfi_pkt_size * 4)
      × (p.msg_size ≤ p.size)
      × (memory ≡ true)
      × (length q.msgs < max_num_msgs_per_session)
      × (q' ≡ record q { msgs = q.msgs ++ (p.msg ∷ []); msg_count = q.msg_count + 1 }))
    ⊎ ((q' ≡ q)
        × (((rc ≡ failed e2big) × (max_hfi_pkt_size * 4 < p.size))
            ⊎ ((rc ≡ failed einval) × (p.size < p.msg_size))
            ⊎ ((rc ≡ failed enomem)
                × ((memory ≡ false) ⊎ (max_num_msgs_per_session ≤ length q.msgs)))))

-- What one packet does to the queue that it is for.
sent : Bool → Incoming → SessionQueue → Rc × SessionQueue
sent memory p q =
    if ltb (max_hfi_pkt_size * 4) p.size
    then (failed e2big, q)
    else if ltb p.size p.msg_size
    then (failed einval, q)
    else if memory
    then add_message p.msg q
    else (failed enomem, q)

sent-Delivers :
    (memory : Bool) (p : Incoming) (q : SessionQueue)
    → IsCounted q
    → Delivers memory p q (sent memory p q)
unfolding sent add_message
sent-Delivers memory p q c = ground (arith, c.counted, c.limited)

-- A packet for an instance goes to the end of the queue that its fence bit names, and the other
-- queue is left alone. It is refused, and nothing is changed, only if it is too large, or smaller
-- than its kind of message, or memory is short, or 128 messages wait in the queue.
pub process_session_msg_lem :
    (memory : Bool) (p : Incoming) (qs : Queues)
    → IsCounted qs.session_queue
    → IsCounted qs.session_queue_fence
    → (rc : Rc) × (q : SessionQueue) × (if is_fence p.msg.kdata
        then Delivers memory p qs.session_queue_fence (rc, q)
        else Delivers memory p qs.session_queue (rc, q))
      × (process_session_msg memory p (some qs) ≡ (
        rc,
        some (
            if is_fence p.msg.kdata
            then record qs { session_queue_fence = q }
            else record qs { session_queue = q }),
      ))
unfolding process_session_msg sent
process_session_msg_lem memory p qs c d = elim (Bool-cases (is_fence p.msg.kdata)) [
  | inl fence ↦ (
    (sent memory p qs.session_queue_fence).0,
    (sent memory p qs.session_queue_fence).1,
    rw fence (sent-Delivers memory p qs.session_queue_fence d),
    ground (arith, fence),
  )
  | inr plain ↦ (
    (sent memory p qs.session_queue).0,
    (sent memory p qs.session_queue).1,
    rw plain (sent-Delivers memory p qs.session_queue c),
    ground (arith, plain),
  )
]
