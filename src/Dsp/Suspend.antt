-- ===== src/Dsp/Suspend.antt =====
-- The suspension of the DSP (msm/eva/msm_cvp_dsp.c).
use eva_driver.Prelude.{Bool, not, ◌&&◌, ◌||◌}
use eva_driver.Prelude.Tests.{◌==◌, if◌then◌else◌}
use eva_driver.Prelude.Errno.{Rc, success, failed, ebusy, enotsupp}
use eva_driver.Session.{is_success}
use eva_driver.Dsp.{
  suspended, is_ready, is_suspended, Dsp, Exchange, send_cmd_sync, Restart, give_up, reinit_dsp,
}

-- What a suspension meets: whether there is a session of the DSP, the first exchange, the
-- reinitialisation, the second exchange, and the hypervisor where all fails.
pub record Suspending : Type 0 where
  pub session_exists : Bool
  pub first : Exchange
  pub restart : Restart
  pub second : Exchange
  pub fatal_scm : Rc

abbrev pub fatal_exit : Suspending → Dsp → Rc × Dsp
fatal_exit s d = (failed enotsupp, give_up s.fatal_scm d)

-- The second try: nothing is tried again.
unfoldable pub retry_suspend : Suspending → Dsp → Rc × Dsp
retry_suspend s d =
    let (rc, ret) = send_cmd_sync s.second d in
    if not (is_success rc)
    then (rc, d)
    else if ret == 3 || ret == 2
    then fatal_exit s d
    else (success, record d { state = suspended })

-- `cvp_dsp_suspend`; the codes of the DSP are `CPU2DSP_EUNAVAILABLE`, 3, and `CPU2DSP_EFATAL`, 2.
unfoldable pub suspend_dsp : Bool → Suspending → Dsp → Rc × Dsp
suspend_dsp force s d =
    if not force && s.session_exists && not (is_suspended d.state)
    then (failed ebusy, d)
    else if not (is_ready d.state)
    then (success, d)
    else let (rc, ret) = send_cmd_sync s.first d in
      if not (is_success rc)
      then (rc, d)
      else if ret == 3
      then fatal_exit s d
      else if not (ret == 2)
      then (success, record d { state = suspended })
      else let (rc', d') = reinit_dsp s.restart d in
        if is_success rc' then retry_suspend s d' else fatal_exit s d'
