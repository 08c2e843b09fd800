-- ===== src/Fences.antt =====
-- The fence queue of a session (msm/eva/msm_cvp.c, msm/eva/msm_cvp_synx.c): commands that wait for
-- fences, the threads that process them, and the flush. Log lines, traces and wake-ups are left out;
-- what the device layer, the firmware and the other threads do is given by values.
mod Synx
mod Enqueue
mod Populated
mod Accepted
mod Flush
mod Flushed
mod Signals
mod Quiet
mod Apart
mod Sender
mod Steps
mod Run
mod Tests
use eva_driver.Prelude.{
  ℕ, zero, suc, ◌+◌, ◌-◌, ◌*◌, ◌/◌, ◌%◌, ◌^◌, Bool, true, false, not, ◌&&◌, ◌||◌, Option, none,
  some, List, [], ◌∷◌, ◌++◌,
}
use eva_driver.Prelude.Tests.{ltb, ◌==◌, if◌then◌else◌}
use eva_driver.Prelude.Lists.{length, take, drop}
use eva_driver.Prelude.Errno.{Errno, Rc, success, failed, hfi_error, einval, enomem, eio, etimedout}
use eva_driver.Session.{is_success}
use eva_driver.Messages.{queue_start, queue_active}
use eva_driver.Fences.Synx.{SynxDriver, import_synx, wait_synx, signal_synx, cancel_synx}

-- `enum op_mode`.
abbrev pub op_normal : ℕ
op_normal = 0

abbrev pub op_draining : ℕ
op_draining = 1

-- `struct cvp_fence_command`: its `kdata`, whether its signature is that of kernel
-- fences, and its fences, of which the first `output_index` are the input fences.
pub record FenceCommand : Type 0 where
  pub kdata : ℕ
  pub is_kernel : Bool
  pub output_index : ℕ
  pub synx : List ℕ

-- `struct cvp_fence_queue`.
pub record FenceQueue : Type 0 where
  pub state : ℕ
  pub mode : ℕ
  pub wait_list : List FenceCommand
  pub sched_list : List FenceCommand
  pub send_count : ℕ

abbrev pub inputs : FenceCommand → List ℕ
inputs f = take f.output_index f.synx

abbrev pub outputs : FenceCommand → List ℕ
outputs f = drop f.output_index f.synx

-- The first of the waiting commands, if there is one, is moved to the end of the scheduled ones.
pub take_first : List FenceCommand → FenceQueue → Bool × Option FenceCommand × FenceQueue
take_first [] q = (false, none, q)
take_first (f ∷ fs) q =
    (true, some f, record q { wait_list = fs; sched_list = q.sched_list ++ (f ∷ []) })

-- `cvp_fence_wait`: whether the thread wakes up, with which command, and the queue.
pub fence_wait : FenceQueue → Bool × Option FenceCommand × FenceQueue
unfolding take_first
fence_wait q = if not (q.state == queue_start) then (true, none, q) else take_first q.wait_list q

-- What the sending of a command and the wait for its message answer: codes, and the error that the
-- message names.
pub record Replies : Type 0 where
  pub session_send : Rc
  pub message : Rc
  pub hfi_err : ℕ

-- What the processing of a command does: the code, whether it is sent, whether its frame is unmapped,
-- and the fences that it signals.
pub record FenceProcessed : Type 0 where
  pub rc : Rc
  pub sent : Bool
  pub unmapped : Bool
  pub signaled : List (ℕ × ℕ)

-- The label `exit` of `cvp_fence_proc`: the output fences of a kernel command are signalled, and the
-- code is then that of the signals.
pub fence_exit : SynxDriver → FenceCommand → Rc → ℕ → Bool → Bool → FenceProcessed
fence_exit k f rc state sent unmapped =
    if f.is_kernel
    then (let r = signal_synx k (outputs f) state success in
        record { rc = r.0; sent = sent; unmapped = unmapped; signaled = r.1 })
    else record { rc = rc; sent = sent; unmapped = unmapped; signaled = [] }

-- The label `receive_msg`, for a state of the input fences.
pub receive_msg : SynxDriver → Replies → FenceCommand → ℕ → Bool → FenceProcessed
unfolding fence_exit
receive_msg k r f state sent =
    if not (is_success r.message)
    then fence_exit k f r.message k.signaled_cancel sent false
    else if r.hfi_err == 0x101c
    then fence_exit k f success k.signaled_cancel sent false
    else if r.hfi_err == 0x100b
    then fence_exit k f success k.signaled_success sent false
    else if not (r.hfi_err == 0)
    then fence_exit k f success k.signaled_cancel sent false
    else fence_exit k f success state sent false

-- `cvp_fence_proc`, for an instance with a core.
pub fence_proc : SynxDriver → Replies → FenceCommand → FenceProcessed
unfolding receive_msg fence_exit
fence_proc k r f =
    if not f.is_kernel
    then receive_msg k r f k.signaled_success false
    else let waited = wait_synx k (inputs f) k.signaled_success in
      if not (is_success waited.0)
      then fence_exit k f waited.0 waited.1 false true
      else if not (is_success r.session_send)
      then fence_exit k f r.session_send k.signaled_cancel false false
      else receive_msg k r f waited.1 true

-- `list_del_init` of the command at a position.
pub unlink : ℕ → List FenceCommand → List FenceCommand
unlink i [] = []
unlink zero (f ∷ fs) = fs
unlink (suc i) (f ∷ fs) = f ∷ unlink i fs

-- What `cvp_fence_thread` does behind the processing of the scheduled command at a position, and
-- whether it goes on.
pub fence_done : ℕ → Rc → FenceQueue → Bool × FenceQueue
fence_done i rc q =
    (is_success rc || q.state == queue_start, record q { sched_list = unlink i q.sched_list })

-- The kernel commands of a list, which a cleaning takes out, and the others.
pub kernel_commands : List FenceCommand → List FenceCommand
kernel_commands [] = []
kernel_commands (f ∷ fs) = if f.is_kernel then f ∷ kernel_commands fs else kernel_commands fs

pub other_commands : List FenceCommand → List FenceCommand
other_commands [] = []
other_commands (f ∷ fs) = if f.is_kernel then other_commands fs else f ∷ other_commands fs

-- The outputs of the removed commands, and the inputs of the scheduled ones, cancelled.
pub cancel_outputs : List FenceCommand → ℕ → List (ℕ × ℕ)
cancel_outputs [] state = []
cancel_outputs (f ∷ fs) state = cancel_synx (outputs f) state ++ cancel_outputs fs state

pub cancel_inputs : List FenceCommand → ℕ → List (ℕ × ℕ)
cancel_inputs [] state = []
cancel_inputs (f ∷ fs) state =
    (if f.is_kernel then cancel_synx (inputs f) state else []) ++ cancel_inputs fs state

-- What a cleaning leaves: the code, the queue, the commands that it unmaps, releases and frees, and
-- the fences that it signals: their outputs, and the inputs of the scheduled commands.
pub record Cleaned : Type 0 where
  pub rc : Rc
  pub queue : FenceQueue
  pub freed : List FenceCommand
  pub outputs_signaled : List (ℕ × ℕ)
  pub inputs_signaled : List (ℕ × ℕ)

-- `cvp_clean_fence_queue`, given whether the senders finish in time.
pub clean_fence_queue : Bool → ℕ → FenceQueue → Cleaned
clean_fence_queue idle state q =
    if not idle
    then record {
      rc = failed etimedout;
      queue = record q { mode = op_draining };
      freed = [];
      outputs_signaled = [];
      inputs_signaled = [];
    }
    else record {
      rc = success;
      queue = record q { mode = op_draining; wait_list = other_commands q.wait_list };
      freed = kernel_commands q.wait_list;
      outputs_signaled = cancel_outputs (kernel_commands q.wait_list) state;
      inputs_signaled = cancel_inputs q.sched_list state;
    }
