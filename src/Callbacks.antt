-- ===== src/Callbacks.antt =====
-- What the driver does with the firmware's responses: the interrupt thread of msm/eva/cvp_hfi.c and
-- the callbacks of msm/eva/msm_cvp_common.c, which wake up those that wait for an answer. Log lines,
-- locks, the deliberate crashes and the debugging dumps are left out, and so is the enabling of the
-- interrupt. Each callback puts the reference again that it takes, so the references stay.
pub mod Errors
pub mod Thread
mod Told
mod Kept
mod Answered
mod Broken
mod Tests
use eva_driver.Prelude.{
  ℕ, zero, suc, ◌+◌, ◌-◌, ◌*◌, ◌^◌, min, Bool, true, false, not, ◌&&◌, ◌||◌, Option, none, some,
  List, [], ◌∷◌, ◌++◌,
}
use eva_driver.Prelude.Tests.{ltb, leb, ◌==◌, if◌then◌else◌}
use eva_driver.Prelude.Errno.{Rc}
use eva_driver.Session.{is_success, core_invalid}
use eva_driver.Queue.{QueueInfo, Peer}
use eva_driver.Responses.{
  ResponseType, Info, Clients, World, no_resp, sys_init_done, sys_error, session_init_done,
  session_end_done, session_set_buffer_done, session_abort_done, session_start_done,
  session_stop_done, session_flush_done, session_release_buffer_done, session_dump_notify,
  session_error, response_unused,
}
use eva_driver.Responses.Drain.{
  HalSession, Drained, drained, fault, out_of_rounds, response_handler,
}

-- `struct msm_cvp_inst`: its address, its session object, its references, its state, its codes, its
-- last event, and the completions that were signalled, by their places in `completions`.
pub record Waiter : Type 0 where
  pub address : ℕ
  pub session : ℕ
  pub kref : ℕ
  pub state : ℕ
  pub hfi_error_code : ℕ
  pub session_error_code : ℕ
  pub event : ℕ
  pub completions : List ℕ

-- `struct msm_cvp_core`, with the driver's count of errors, the completions of the initialisation,
-- and whether the device is in a valid state.
pub record Driver : Type 0 where
  pub waiters : List Waiter
  pub init_completions : ℕ
  pub max_inst_count : ℕ
  pub max_secure_inst_count : ℕ
  pub max_supported_inst_count : ℕ
  pub error_count : ℕ
  pub ssr_count : ℕ
  pub core_unused : Bool
  pub device_valid : Bool

-- What else decides: the sessions that the firmware says it supports, whether there is a device, and
-- the code of `core_release`, which leaves the device in no valid state whatever that code is.
pub record Given : Type 0 where
  pub max_sessions_supported : ℕ
  pub has_device : Bool
  pub core_release : Rc

-- `enum hal_command_response`.
unfoldable pub hal_number : ResponseType → ℕ
hal_number no_resp = 0
hal_number sys_init_done = 1
hal_number sys_error = 9
hal_number session_init_done = 11
hal_number session_end_done = 12
hal_number session_set_buffer_done = 13
hal_number session_abort_done = 14
hal_number session_start_done = 15
hal_number session_stop_done = 16
hal_number session_flush_done = 18
hal_number session_release_buffer_done = 23
hal_number session_dump_notify = 28
hal_number session_error = 29
hal_number response_unused = 0x10000000

-- `IS_HAL_SESSION_CMD`.
abbrev pub is_hal_session_cmd : ℕ → Bool
is_hal_session_cmd cmd = leb 10 cmd && leb cmd 29

-- `SESSION_MSG_INDEX`, and the number of a session's completions.
abbrev pub session_msg_index : ℕ → ℕ
session_msg_index cmd = cmd - 10

abbrev pub session_msgs : ℕ
session_msgs = 20

-- `MAX_CVP_ERROR_COUNT`.
abbrev pub max_cvp_error_count : ℕ
max_cvp_error_count = 65535

-- `EVA_EVENT` and `CVP_DUMP_EVENT`.
abbrev pub eva_event : ℕ
eva_event = 1

abbrev pub cvp_dump_event : ℕ
cvp_dump_event = 6

unfoldable pub find_waiter : ℕ → List Waiter → Option Waiter
find_waiter d [] = none
find_waiter d (i ∷ is) = if d == i.address then some i else find_waiter d is

unfoldable pub update_waiter : ℕ → (Waiter → Waiter) → List Waiter → List Waiter
update_waiter d f [] = []
update_waiter d f (i ∷ is) = if d == i.address then f i ∷ is else i ∷ update_waiter d f is

-- The instance that `cvp_get_inst` finds.
unfoldable pub inst_of : ℕ → Driver → Option Waiter
inst_of zero c = none
inst_of (suc d) c = elim (find_waiter (suc d) c.waiters) [
  | none ↦ none
  | some i ↦ if i.session == 0 || i.kref == 0 then none else some i
]

-- A change of the instance that `cvp_get_inst` finds, between that and `cvp_put_inst`.
unfoldable pub with_inst : ℕ → (Waiter → Waiter) → Driver → Driver
unfolding inst_of
with_inst d f c = elim (inst_of d c) [
  | none ↦ c
  | some i ↦ record c { waiters = update_waiter d f c.waiters }
]

-- `signal_session_msg_receipt`.
unfoldable pub signal_session_msg_receipt : ℕ → Waiter → Waiter
signal_session_msg_receipt cmd i =
    if is_hal_session_cmd cmd
    then record i { completions = i.completions ++ (session_msg_index cmd ∷ []) }
    else i

-- `inst->hfi_error_code = response->status`, and the signal.
unfoldable pub answer_inst : ℕ → ℕ → Waiter → Waiter
unfolding signal_session_msg_receipt
answer_inst cmd status i = signal_session_msg_receipt cmd (record i { hfi_error_code = status })

-- The callbacks of answers, which differ in their log lines.
unfoldable pub handle_session_init_done : ℕ → Info → Driver → Driver
unfolding answer_inst with_inst
handle_session_init_done cmd r c = with_inst r.session_id (answer_inst cmd r.status) c

unfoldable pub handle_session_close : ℕ → Info → Driver → Driver
unfolding answer_inst with_inst
handle_session_close cmd r c = with_inst r.session_id (answer_inst cmd r.status) c

unfoldable pub handle_session_ctrl : ℕ → Info → Driver → Driver
unfolding answer_inst with_inst
handle_session_ctrl cmd r c = with_inst r.session_id (answer_inst cmd r.status) c

unfoldable pub handle_session_set_buf_done : ℕ → Info → Driver → Driver
unfolding answer_inst with_inst
handle_session_set_buf_done cmd r c = with_inst r.session_id (answer_inst cmd r.status) c

unfoldable pub handle_session_release_buf_done : ℕ → Info → Driver → Driver
unfolding answer_inst with_inst
handle_session_release_buf_done cmd r c = with_inst r.session_id (answer_inst cmd r.status) c

-- `handle_session_dump_notify`.
unfoldable pub handle_session_dump_notify : Info → Driver → Driver
unfolding with_inst
handle_session_dump_notify r c = with_inst r.session_id (λ i. record i { event = cvp_dump_event }) c
