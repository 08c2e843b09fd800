-- ===== src/Messages.antt =====
-- The messages that the firmware sends to a session: `hfi_process_session_cvp_msg` of
-- msm/eva/hfi_response_handler.c puts them into one of the session's two queues, and
-- `cvp_msg_pending` and `cvp_wait_process_message` of msm/eva/msm_cvp.c hand them to the client.
-- Log lines, traces and the hardware hang's register dump are left out. The HFI version only says
-- where a field stands in the packet.
mod Order
mod Run
mod Tests
use eva_driver.Prelude.{
  ℕ, ◌+◌, ◌*◌, ◌/◌, ◌%◌, ◌^◌, Bool, true, false, not, ◌&&◌, ◌||◌, Option, none, some, List, [], ◌∷◌,
  ◌++◌,
}
use eva_driver.Prelude.Tests.{ltb, leb, ◌==◌, if◌then◌else◌}
use eva_driver.Prelude.Words.{add32, sub32}
use eva_driver.Prelude.Errno.{Rc, success, failed, einval, enomem, e2big, etimedout, econnreset}

-- `enum queue_state`.
abbrev pub queue_init : ℕ
queue_init = 0

abbrev pub queue_active : ℕ
queue_active = 1

abbrev pub queue_start : ℕ
queue_start = 2

abbrev pub queue_stop : ℕ
queue_stop = 3

abbrev pub queue_invalid : ℕ
queue_invalid = 4

-- `struct cvp_session_msg`: the packet, and the `kdata` of its header.
pub record Message : Type 0 where
  pub kdata : ℕ
  pub body : List ℕ

-- `struct cvp_session_queue`.
pub record SessionQueue : Type 0 where
  pub state : ℕ
  pub msg_count : ℕ
  pub msgs : List Message

-- The two queues of a session.
pub record Queues : Type 0 where
  pub session_queue : SessionQueue
  pub session_queue_fence : SessionQueue

-- The first message with that `kdata`, and the list without it.
pub find_kdata : ℕ → List Message → Option (Message × List Message)
find_kdata k [] = none
find_kdata k (m ∷ ms) = elim (k == m.kdata) [
  | true ↦ some (m, ms)
  | false ↦ elim (find_kdata k ms) [ none ↦ none | some (found, rest) ↦ some (found, m ∷ rest) ]
]

-- `list_del_init` and `sq->msg_count--`.
abbrev pub without : SessionQueue → List Message → SessionQueue
without q rest = record q { msgs = rest; msg_count = sub32 q.msg_count 1 }

-- `cvp_msg_pending`: whether the wait is over, the message, and the queue.
pub msg_pending : Option ℕ → SessionQueue → Bool × Option Message × SessionQueue
msg_pending ktid q =
    if q.state == queue_init || q.state == queue_invalid then (true, none, q) else elim q.msgs [
      | [] ↦ (false, none, q)
      | m ∷ rest ↦ elim ktid [
        | none ↦ (true, some m, without q rest)
        | some k ↦ elim (find_kdata k (m ∷ rest)) [
          | none ↦ (false, none, q)
          | some (found, rest') ↦ (true, some found, without q rest')
        ]
      ]
    ]

-- `wait_event_timeout` on that condition: it is tested at once and after each thing that other
-- threads do to the queue in time; `none` is a timeout.
pub wait_pending :
    List (SessionQueue → SessionQueue)
    → Option ℕ
    → SessionQueue
    → Option (Option Message) × SessionQueue
wait_pending [] ktid q =
    let (ready, m, q') = msg_pending ktid q in if ready then (some m, q') else (none, q')
wait_pending (other ∷ others) ktid q =
    let (ready, m, q') = msg_pending ktid q in
    let later = wait_pending others ktid (other q') in if ready then (some m, q') else later

-- What `cvp_wait_process_message` calls besides: `handle_session_timeout` or
-- `msm_cvp_comm_kill_session`.
pub data Aside : Type 0 where
  no_call timeout_call kill_call : Aside

-- What it leaves: the code, the packet copied out, the frame given to `msm_cvp_unmap_frame`, the
-- call made besides, and the queue.
pub record Processed : Type 0 where
  pub rc : Rc
  pub out : Option Message
  pub unmapped : Option ℕ
  pub aside : Aside
  pub queue : SessionQueue

abbrev pub max_pkt_idx : ℕ
max_pkt_idx = 512

-- The message at hand: it is copied to the client's buffer, if there is one.
pub process_message : Bool → Message → SessionQueue → Processed
process_message wanted m q =
    if wanted
    then record {
      rc = success;
      out = some m;
      unmapped = if leb max_pkt_idx m.kdata then some m.kdata else none;
      aside = no_call;
      queue = q;
    }
    else record { rc = success; out = none; unmapped = none; aside = no_call; queue = q }

-- The rest of `cvp_wait_process_message`, once the wait is over.
pub after_wait : ℕ → Bool → Option (Option Message) → SessionQueue → Processed
unfolding process_message
after_wait inst_state wanted none q = record {
  rc = failed etimedout;
  out = none;
  unmapped = none;
  aside = timeout_call;
  queue = q;
}
after_wait inst_state wanted (some none) q =
    if leb 7 inst_state || (not (q.state == queue_active) && not (q.state == queue_start))
    then record { rc = failed econnreset; out = none; unmapped = none; aside = no_call; queue = q }
    else record { rc = success; out = none; unmapped = none; aside = kill_call; queue = q }
after_wait inst_state wanted (some (some m)) q = process_message wanted m q

-- `cvp_wait_process_message` for an instance in the state `inst_state`.
pub wait_process_message :
    ℕ → List (SessionQueue → SessionQueue) → Option ℕ → Bool → SessionQueue → Processed
unfolding after_wait
wait_process_message inst_state others ktid wanted q =
    let (seen, q') = wait_pending others ktid q in after_wait inst_state wanted seen q'

-- A packet as it comes from the firmware: the size that its header states, the size of its kind of
-- message, and what is kept of it.
pub record Incoming : Type 0 where
  pub size : ℕ
  pub msg_size : ℕ
  pub msg : Message

abbrev pub max_hfi_pkt_size : ℕ
max_hfi_pkt_size = 600

abbrev pub max_num_msgs_per_session : ℕ
max_num_msgs_per_session = 128

-- `kdata & FENCE_BIT`.
pub is_fence : ℕ → Bool
is_fence kdata = kdata / 2 ^ 63 % 2 == 1

-- `list_add_tail`, unless the queue is at its limit.
pub add_message : Message → SessionQueue → Rc × SessionQueue
add_message m q =
    if leb max_num_msgs_per_session q.msg_count
    then (failed enomem, q)
    else (success, record q { msgs = q.msgs ++ (m ∷ []); msg_count = add32 q.msg_count 1 })

-- `hfi_process_session_cvp_msg`, given whether the message cache has memory, and the queues of the
-- instance that has the packet's session id, if there is one.
pub process_session_msg : Bool → Incoming → Option Queues → Rc × Option Queues
process_session_msg memory p none =
    if ltb (max_hfi_pkt_size * 4) p.size then (failed e2big, none) else (failed einval, none)
process_session_msg memory p (some qs) =
    if ltb (max_hfi_pkt_size * 4) p.size
    then (failed e2big, some qs)
    else if ltb p.size p.msg_size
    then (failed einval, some qs)
    else if not memory
    then (failed enomem, some qs)
    else if is_fence p.msg.kdata
    then (let (rc, q) = add_message p.msg qs.session_queue_fence in
        (rc, some (record qs { session_queue_fence = q })))
    else (let (rc, q) = add_message p.msg qs.session_queue in
        (rc, some (record qs { session_queue = q })))
