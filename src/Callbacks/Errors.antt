-- ===== src/Callbacks/Errors.antt =====
-- The callbacks of errors and of the initialisation, and the table of callbacks
-- (msm/eva/msm_cvp_common.c).
use eva_driver.Prelude.{
  ℕ, zero, suc, ◌+◌, ◌*◌, ◌^◌, min, true, false, not, none, some, List, [], ◌∷◌, ◌++◌,
}
use eva_driver.Prelude.Tests.{ltb, ◌==◌, if◌then◌else◌}
use eva_driver.Session.{is_success, core_invalid}
use eva_driver.Responses.{
  Info, no_resp, sys_init_done, sys_error, session_init_done, session_end_done,
  session_set_buffer_done, session_abort_done, session_start_done, session_stop_done,
  session_flush_done, session_release_buffer_done, session_dump_notify, session_error,
  response_unused,
}
use eva_driver.Callbacks.{
  Waiter, Driver, Given, hal_number, session_msgs, max_cvp_error_count, eva_event, inst_of,
  with_inst, handle_session_init_done, handle_session_close, handle_session_ctrl,
  handle_session_set_buf_done, handle_session_release_buf_done, handle_session_dump_notify,
}

abbrev pub count_error : ℕ → ℕ
count_error n = if ltb n max_cvp_error_count then n + 1 else n

-- `(s_state << 28) | (s_ecode << 16) | cvp_error_count`, for the state `SESSION_ERROR`: the count is
-- below 2 ^ 16.
abbrev pub error_code : ℕ → ℕ → ℕ
error_code ecode count = 2 ^ 28 + ecode * 2 ^ 16 + count

-- What `handle_session_error` does to the instance.
unfoldable pub record_error : ℕ → Waiter → Waiter
record_error count i = record i {
  session_error_code = error_code 2 count;
  event = if i.state == core_invalid then i.event else eva_event;
}

-- `handle_session_error`: only an error of an instance that is found counts.
pub handle_session_error : Info → Driver → Driver
unfolding with_inst record_error
handle_session_error r c =
    let n : ℕ = elim (inst_of r.session_id c) [
      | none ↦ c.error_count
      | some i ↦ count_error c.error_count
    ] in
    with_inst r.session_id (record_error n) (record c { error_count = n })

-- `handle_sys_init_done`.
unfoldable pub handle_sys_init_done : Given → Driver → Driver
handle_sys_init_done w c =
    let n =
      if w.max_sessions_supported == 0
      then c.max_supported_inst_count
      else min w.max_sessions_supported c.max_supported_inst_count in
    record c {
      max_inst_count = n;
      max_secure_inst_count = if c.max_secure_inst_count == 0 then n else c.max_secure_inst_count;
      init_completions = c.init_completions + 1;
    }

-- The numbers from one on, so many.
pub upto : ℕ → ℕ → List ℕ
upto zero first = []
upto (suc n) first = first ∷ upto n (suc first)

-- What `handle_sys_error` does to an instance: all its completions are signalled.
unfoldable pub break_waiter : ℕ → Waiter → Waiter
unfolding upto
break_waiter count i = if i.state == core_invalid then i else record i {
  session_error_code = error_code 1 count;
  state = core_invalid;
  completions = i.completions ++ upto session_msgs 0;
  event = eva_event;
}

unfoldable pub break_waiters : ℕ → List Waiter → List Waiter
unfolding break_waiter
break_waiters count [] = []
break_waiters count (i ∷ is) = break_waiter count i ∷ break_waiters count is

-- `handle_sys_error`, for all instances. The cleaning of their fence queues is that of Fences.
unfoldable pub handle_sys_errors : Given → Driver → Driver
unfolding break_waiters
handle_sys_errors w c =
    let n = count_error c.error_count in
    let freed = is_success w.core_release in
    if c.core_unused
    then c
    else if not w.has_device
    then record c { ssr_count = c.ssr_count + 1; core_unused = true }
    else record c {
      ssr_count = c.ssr_count + 1;
      error_count = n;
      waiters = break_waiters n c.waiters;
      core_unused = freed;
      device_valid = false;
    }

-- `cvp_handle_cmd_response`, for the responses that the driver makes.
unfoldable pub handle_cmd_response : Given → Info → Driver → Driver
unfolding handle_session_init_done handle_session_close handle_session_ctrl
    handle_session_set_buf_done handle_session_release_buf_done handle_session_dump_notify
    handle_session_error handle_sys_init_done handle_sys_errors
handle_cmd_response w r c =
    let cmd = hal_number r.response_type in
    elim r.response_type [
      | no_resp ↦ c
      | sys_init_done ↦ handle_sys_init_done w c
      | sys_error ↦ handle_sys_errors w c
      | session_init_done ↦ handle_session_init_done cmd r c
      | session_end_done ↦ handle_session_close cmd r c
      | session_set_buffer_done ↦ handle_session_set_buf_done cmd r c
      | session_abort_done ↦ handle_session_close cmd r c
      | session_start_done ↦ handle_session_ctrl cmd r c
      | session_stop_done ↦ handle_session_ctrl cmd r c
      | session_flush_done ↦ handle_session_ctrl cmd r c
      | session_release_buffer_done ↦ handle_session_release_buf_done cmd r c
      | session_dump_notify ↦ handle_session_dump_notify r c
      | session_error ↦ handle_session_error r c
      | response_unused ↦ c
    ]
