-- ===== src/Session/Stages.antt =====
-- The steps that the table of handlers takes, one for each move of a session
-- (msm/eva/msm_cvp_common.c).
use eva_driver.Prelude.{ℕ, true, false, not, ◌||◌}
use eva_driver.Prelude.Tests.{leb, if◌then◌else◌}
use eva_driver.Prelude.Errno.{Rc, success, failed, einval, enomem, eio}
use eva_driver.Session.{
  core_init, core_init_done, open_sent, open_done, close_sent, core_uninit, CoreState, init,
  init_done, Sys, World, is_success, change, handle_sys_error, wait_for_state,
}

-- `msm_comm_init_core`.
unfoldable pub init_core : World → Sys → Rc × Sys
init_core w s = elim s.core.state [
  | CoreState.uninit ↦
      if s.core.capabilities || w.alloc_capabilities
      then (if is_success w.hfi_core_init
          then (
            success,
            change core_init (record s {
              core = record s.core {
                state = CoreState.init;
                capabilities = true;
                trigger_ssr = false;
              };
            }),
          )
          else (w.hfi_core_init, uninit_core))
      else (failed enomem, uninit_core)
  | init ↦ (success, change core_init s)
  | init_done ↦ (success, change core_init s)
]
  where
    uninit_core : Sys
    uninit_core = record s {
      core = record s.core { state = CoreState.uninit; capabilities = false };
    }

-- `msm_cvp_comm_check_core_init`.
unfoldable pub check_core_init : World → Sys → Rc × Sys
check_core_init w s = elim s.core.state [
  | init_done ↦ (success, s)
  | _ ↦
      if w.sys_init_done
      then (success, record s { core = record s.core { state = CoreState.init_done } })
      else (failed eio, s)
]

-- `msm_comm_init_core_done`.
unfoldable pub init_core_done : World → Sys → Rc × Sys
init_core_done w s =
    let (rc, s') = check_core_init w s in
    if is_success rc then (rc, change core_init_done s') else (rc, handle_sys_error w s')

-- `msm_comm_session_init`: the device layer sets the session pointer also where it fails.
unfoldable pub session_init : World → ℕ → Sys → Rc × Sys
session_init w flipped s =
    if leb open_sent flipped
    then (success, s)
    else let s' = record s { inst = record s.inst { session = w.new_session } } in
      if not (is_success w.hfi_session_init) || not w.new_session
      then (failed einval, s')
      else (success, change open_sent s')

-- `msm_comm_session_init_done`.
unfoldable pub session_init_done : World → ℕ → Sys → Rc × Sys
session_init_done w flipped s = wait_for_state w flipped open_done w.session_init_done s

-- `msm_comm_session_close`.
unfoldable pub session_close : World → ℕ → Sys → Rc × Sys
session_close w flipped s =
    if leb close_sent flipped
    then (success, s)
    else if is_success w.hfi_session_end
    then (success, change close_sent s)
    else (w.hfi_session_end, s)

-- `msm_cvp_comm_session_clean`, whose device call reports nothing back.
unfoldable pub session_clean : Sys → Sys
session_clean s = record s { inst = record s.inst { session = false } }

-- `msm_cvp_deinit_core`.
unfoldable pub deinit_core : Sys → Rc × Sys
deinit_core s = (success, change core_uninit s)
