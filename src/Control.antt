-- ===== src/Control.antt =====
-- The control of a session's queues (msm/eva/msm_cvp.c, msm/eva/msm_cvp.h): start, stop, flush,
-- the fence threads, and the commands that a client sends. Log lines, traces, wake-ups and the
-- latency votes are left out. What the firmware, the device layer and the kernel answer is a record
-- of values.
mod Stop
mod Start
mod Send
mod Tests
use eva_driver.Prelude.{
  ℕ, zero, suc, ◌+◌, ◌-◌, ◌*◌, ◌/◌, Bool, true, false, not, ◌&&◌, ◌||◌, Option, none, some, List,
  [], ◌∷◌,
}
use eva_driver.Prelude.Tests.{ltb, leb, ◌==◌, if◌then◌else◌}
use eva_driver.Prelude.Errno.{Rc, success, failed, hfi_error, einval, econnreset, echild, euclean}
use eva_driver.Session.{is_success}
use eva_driver.Messages.{queue_active, queue_start, queue_stop, queue_invalid}

-- The states of a session's three queues, with the count of its messages, the number of its fence
-- threads asked for and running, and its references.
pub record Control : Type 0 where
  pub state : ℕ
  pub msg_count : ℕ
  pub fence_state : ℕ
  pub cmd_state : ℕ
  pub fthread_nr : ℕ
  pub threads : ℕ
  pub refs : ℕ

-- What `kthread_run` returns: a thread, an error pointer, or null.
pub data Thread : Type 0 where
  running err_ptr null : Thread

-- What the calls answer, in the order of the calls: whether the session is valid, and for each
-- fence thread whether it is still valid and what `kthread_run` returns; the device layer and the
-- firmware to a start, a stop and a flush. `flush_valid` is for the check that a retried stop does.
pub record Answers : Type 0 where
  pub valid : Bool
  pub spawns : List (Bool × Thread)
  pub session_start : Rc
  pub start_done : Rc
  pub session_stop : Rc
  pub stop_done : Rc
  pub flush_valid : Bool
  pub flush_all : Rc
  pub flush_stop : Rc
  pub flush_stop_done : Rc

abbrev pub get_ref : Control → Control
get_ref c = record c { refs = c.refs + 1 }

-- `cvp_put_inst`, for a session that is not given up by it.
abbrev pub put_ref : Control → Control
put_ref c = record c { refs = c.refs - 1 }

-- The loop of `cvp_fence_thread_start`: each thread has a reference of its own, which it puts at
-- its end. Only a null pointer is taken for a failure.
pub spawn : List (Bool × Thread) → Control → Rc × Control
spawn [] c = (success, c)
spawn ((false, t) ∷ ts) c = (failed econnreset, c)
spawn ((true, null) ∷ ts) c = (failed echild, get_ref c)
spawn ((true, err_ptr) ∷ ts) c = spawn ts (get_ref c)
spawn ((true, running) ∷ ts) c = spawn ts (record c { refs = c.refs + 1; threads = c.threads + 1 })

-- `cvp_fence_thread_start`; the answers have an entry for each of `fthread_nr` threads.
pub fence_thread_start : Answers → Control → Rc × Control
fence_thread_start a c =
    if not a.valid
    then (failed einval, c)
    else if c.fthread_nr == 0
    then (success, put_ref (get_ref c))
    else let (rc, c') = spawn a.spawns (record (get_ref c) { cmd_state = queue_start }) in
      (
        rc,
        put_ref (
            if is_success rc
            then record c' { fence_state = queue_start }
            else record c' { cmd_state = queue_stop }),
      )

-- `cvp_fence_thread_stop`.
pub fence_thread_stop : Control → Control
fence_thread_stop c =
    if c.fthread_nr == 0 then c else record c { cmd_state = queue_stop; fence_state = queue_stop }

-- The two error paths of a start.
abbrev pub restore : ℕ → Control → Control
restore old c = record c { state = old }

-- `msm_cvp_session_start` for an instance with a core.
pub session_start : Answers → Control → Rc × Control
session_start a c =
    if not (c.msg_count == 0)
    then (failed einval, c)
    else let (rc, c') = fence_thread_start a (record c { state = queue_start }) in
      if not (is_success rc)
      then (rc, restore c.state c')
      else if not (is_success a.session_start)
      then (a.session_start, restore c.state (fence_thread_stop c'))
      else if not (is_success a.start_done)
      then (a.start_done, restore c.state (fence_thread_stop c'))
      else (success, c')

-- The label `stop_thread` of both stops.
pub stop_thread : Rc → Control → Rc × Control
unfolding fence_thread_stop
stop_thread rc c = (
  rc,
  fence_thread_stop (record c { state = if is_success rc then queue_stop else queue_invalid }),
)

-- The first code that is an error, if one is.
abbrev pub then_rc : Rc → Rc → Rc
then_rc rc next = if is_success rc then next else rc

-- `msm_cvp_session_flush_stop` for an instance and a core that are there.
pub session_flush_stop : Answers → Control → Rc × Control
unfolding stop_thread
session_flush_stop a c =
    if not a.flush_valid
    then (failed econnreset, c)
    else let c' = get_ref c in
      let (rc, c'') =
        if c'.state == queue_stop
        then (success, c')
        else if ltb c'.state queue_start
        then stop_thread success c'
        else stop_thread (then_rc a.flush_all (then_rc a.flush_stop a.flush_stop_done)) c' in
      (rc, put_ref c'')

-- `msm_cvp_session_stop` for an instance with a core, and the `ctrl_data[0]` that it stores.
pub session_stop : Answers → Control → Rc × Control × Option ℕ
unfolding stop_thread
session_stop a c =
    if not a.valid
    then (failed econnreset, c, none)
    else let c' = get_ref c in
      if c'.state == queue_stop
      then (success, put_ref c', none)
      else if not (c'.state == queue_invalid) && not (c'.msg_count == 0)
      then (failed euclean, put_ref c', some c'.msg_count)
      else if is_success a.session_stop && not (is_success a.stop_done)
      then (let (rc, c'') = session_flush_stop a c' in (rc, put_ref c'', none))
      else (let (rc, c'') = stop_thread a.session_stop c' in (rc, put_ref c'', none))

-- `msm_cvp_session_queue_stop`.
pub session_queue_stop : Control → Rc × Control
unfolding fence_thread_stop
session_queue_stop c =
    if c.state == queue_stop
    then (success, c)
    else (success, fence_thread_stop (record c { state = queue_stop }))

-- `sizeof(struct eva_kmd_hfi_packet)` and `sizeof(struct cvp_buf_type)`.
abbrev pub packet_size : ℕ
packet_size = 2408

abbrev pub buf_size : ℕ
buf_size = 44

abbrev pub u32_max : ℕ
u32_max = 4294967295

-- `is_buf_param_valid`, whose products are of the 64-bit `size_t`.
pub is_buf_param_valid : ℕ → ℕ → Bool
is_buf_param_valid buf_num offset =
    if ltb (packet_size / buf_size) buf_num
    then false
    else if ltb (u32_max / 4) offset || ltb (u32_max - buf_num * buf_size) (offset * 4)
    then false
    else if ltb packet_size (offset * 4 + buf_num * buf_size)
    then false
    else true

-- A command from a client: whether `get_pkt_index` knows its type, and what the table says of it,
-- the offset and number of its buffers; and the answers of `msm_cvp_proc_oob` and of
-- `cvp_enqueue_pkt`.
pub record Command : Type 0 where
  pub known : Bool
  pub no_response : Bool
  pub is_config_pkt : Bool
  pub in_offset : ℕ
  pub in_buf_num : ℕ
  pub proc_oob : Rc
  pub enqueue : Rc

-- The offset and number that are used: both, or none.
pub buf_params : Command → ℕ × ℕ
buf_params p =
    if not (p.in_offset == 0) && not (p.in_buf_num == 0)
    then (p.in_offset, p.in_buf_num)
    else (0, 0)

-- `msm_cvp_session_process_hfi` for an instance and a core that are there, and in the instance
-- state `inst_state`: the code, and the offset and number that a packet was enqueued with.
pub session_process_hfi : Bool → ℕ → Control → Command → Rc × Option (ℕ × ℕ)
session_process_hfi valid inst_state c p =
    let (offset, buf_num) = buf_params p in
    if not valid || inst_state == 9
    then (failed econnreset, none)
    else if ltb queue_stop c.state
    then (failed einval, none)
    else if not p.known
    then (success, none)
    else if p.no_response && not (c.state == queue_start) && not p.is_config_pkt
    then (failed einval, none)
    else if not (is_buf_param_valid buf_num offset)
    then (failed einval, none)
    else if not (is_success p.proc_oob)
    then (p.proc_oob, none)
    else (p.enqueue, some (offset, buf_num))
