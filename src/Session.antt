-- ===== src/Session.antt =====
-- The life of a session: `msm_cvp_comm_try_state` of msm/eva/msm_cvp_common.c, its table of
-- handlers, and the steps that they take. What the firmware, the memory allocator and the device
-- layer answer is a record of values. Locks, traces and log lines are left out.
pub mod Stages
mod Machine
mod Steps
mod Good
mod Handled
mod Moves
mod Reach
mod Open
mod Create
mod Tests
use eva_driver.Prelude.{ℕ, suc, Bool, true, false, not, ◌&&◌, ◌||◌, Option, none, some, List, ◌∷◌}
use eva_driver.Prelude.Tests.{ltb, leb, ◌==◌, if◌then◌else◌}
use eva_driver.Prelude.Errno.{
  Rc, success, failed, hfi_error, rc_of_code, einval, enomem, eio, etimedout, econnreset,
}

-- `enum instance_state`, which starts at 1.
abbrev pub core_uninit_done : ℕ
core_uninit_done = 1

abbrev pub core_init : ℕ
core_init = 2

abbrev pub core_init_done : ℕ
core_init_done = 3

abbrev pub open_sent : ℕ
open_sent = 4

abbrev pub open_done : ℕ
open_done = 5

abbrev pub close_sent : ℕ
close_sent = 6

abbrev pub close_done : ℕ
close_done = 7

abbrev pub core_uninit : ℕ
core_uninit = 8

abbrev pub core_invalid : ℕ
core_invalid = 9

-- `enum cvp_core_state`.
pub data CoreState : Type 0 where
  uninit init init_done : CoreState

-- The parts of `struct msm_cvp_inst` and `struct msm_cvp_core` that the state machine reads and
-- writes; `session` is whether the pointer is set, `event` whether the client was sent an event.
-- `visited` is not in the struct, and nothing reads it: it records the states that the instance had
-- before, the latest first.
pub record Inst : Type 0 where
  pub state : ℕ
  pub session : Bool
  pub hfi_error_code : ℕ
  pub prev_hfi_error_code : ℕ
  pub event : Bool
  pub visited : List ℕ

pub record Core : Type 0 where
  pub state : CoreState
  pub capabilities : Bool
  pub trigger_ssr : Bool
  pub ssr_count : ℕ

pub record Sys : Type 0 where
  pub inst : Inst
  pub core : Core

-- What `handle_session_timeout` makes of a timeout: nothing, since the session is gone or has failed
-- already; an error of the session, with an event for its client; or a hung firmware.
pub data Timeout : Type 0 where
  ignored session_error hung : Timeout

-- How a wait for a session's completion ends: in time, with the code that the firmware reported;
-- because another thread handled a system error; or not at all.
pub data Wait : Type 0 where
  completed : ℕ → Wait
  sys_error : Wait
  timed_out : Timeout → Wait

-- The answers of what the state machine calls.
pub record World : Type 0 where
  pub alloc_capabilities : Bool
  pub hfi_core_init : Rc
  pub sys_init_done : Bool
  pub hfi_session_init : Rc
  pub new_session : Bool
  pub session_init_done : Wait
  pub hfi_session_end : Rc
  pub session_end_done : Wait
  pub hfi_core_release : Rc

abbrev pub is_uninit : CoreState → Bool
is_uninit CoreState.uninit = true
is_uninit CoreState.init = false
is_uninit CoreState.init_done = false

abbrev pub is_success : Rc → Bool
is_success success = true
is_success (failed e) = false
is_success (hfi_error n) = false

-- `change_cvp_inst_state`: an invalid instance stays invalid.
pub change_inst_state : ℕ → Inst → Inst
change_inst_state state i =
    if i.state == core_invalid then i else record i { state = state; visited = i.state ∷ i.visited }

abbrev pub change : ℕ → Sys → Sys
change state s = record s { inst = change_inst_state state s.inst }

-- `handle_sys_error`, for the one instance at hand.
pub handle_sys_error : World → Sys → Sys
handle_sys_error w s = elim s.core.state [
  | CoreState.uninit ↦ s
  | init ↦ broken
  | init_done ↦ broken
]
  where
    broken : Sys
    broken = record {
      inst =
          if s.inst.state == core_invalid
          then s.inst
          else record (change_inst_state core_invalid s.inst) { event = true };
      core = record s.core {
        state = if is_success w.hfi_core_release then CoreState.uninit else s.core.state;
        ssr_count = suc s.core.ssr_count;
      };
    }

-- `get_flipped_state`; `none` is -EINVAL.
pub get_flipped_state : ℕ → ℕ → Option ℕ
get_flipped_state present desired =
    if ltb core_invalid present || ltb core_invalid desired
    then none
    else if present == core_init_done && ltb close_sent desired
    then some core_uninit
    else if present == core_invalid
    then some close_sent
    else some present

-- `state <= get_flipped_state(inst->state, state)`: the error code is below every state.
pub reached : ℕ → Sys → Bool
reached desired s = elim (get_flipped_state s.inst.state desired) [
  | none ↦ false
  | some flipped ↦ leb desired flipped
]

-- `wait_for_sess_signal_receipt`, from the moment that the completion is there.
pub settle : Sys → Rc × Sys
settle s = if s.inst.state == core_invalid then (failed econnreset, s) else (
  rc_of_code s.inst.hfi_error_code,
  record s {
    inst = record s.inst { prev_hfi_error_code = s.inst.hfi_error_code; hfi_error_code = 0 };
  },
)

-- `handle_session_timeout`; the flush of a session that does not end is left out.
pub handle_session_timeout : World → Timeout → Sys → Sys
handle_session_timeout w ignored s = s
handle_session_timeout w session_error s = record s { inst = record s.inst { event = true } }
handle_session_timeout w hung s = handle_sys_error w s

-- `wait_for_sess_signal_receipt`. The firmware's code is stored by the response handler.
pub wait_for_receipt : World → Wait → Sys → Rc × Sys
unfolding handle_session_timeout
wait_for_receipt w (timed_out end) s = (failed etimedout, handle_session_timeout w end s)
wait_for_receipt w (completed code) s =
    settle (record s { inst = record s.inst { hfi_error_code = code } })
wait_for_receipt w sys_error s = settle (handle_sys_error w s)

-- `wait_for_state`.
pub wait_for_state : World → ℕ → ℕ → Wait → Sys → Rc × Sys
wait_for_state w flipped desired wait s =
    if leb desired flipped
    then (success, s)
    else let (rc, s') = wait_for_receipt w wait s in
      (rc, if is_success rc then change desired s' else s')
