-- ===== src/Dsp/Thread.antt =====
-- The queues handed to the DSP, and the thread that serves it (msm/eva/msm_cvp_dsp.c).
use eva_driver.Prelude.{ℕ, Bool, true, false, not, ◌&&◌, ◌||◌, Option, none, some}
use eva_driver.Prelude.Tests.{◌==◌, if◌then◌else◌}
use eva_driver.Prelude.Errno.{Rc, success, failed, echild}
use eva_driver.Session.{is_success}
use eva_driver.Dsp.{
  DspState, invalid, uninit, probed, ready, suspended, inactive, is_invalid, is_ready, Dsp,
  Exchange, send_cmd_sync, hyp_assign_to_dsp, rpmsg_probe, Restart, give_up, reinit_dsp,
}

-- What handing over the queues meets: whether the device is there, the queues' memory, the
-- hypervisor, the exchange, the hypervisor after a fatal answer, and a reinitialisation.
pub record Handing : Type 0 where
  pub device : Bool
  pub table : Option (ℕ × ℕ)
  pub assign_scm : Rc
  pub queue_x : Exchange
  pub fatal_scm : Rc
  pub restart : Restart

-- The answer to the queues: 5 is `CPU2DSP_EUNSUPPORTED`, 4 is `CPU2DSP_EINVALSTATE`.
unfoldable pub queue_answered : Handing → ℕ → Dsp → Dsp
queue_answered s ret d =
    if ret == 5
    then d
    else if ret == 2 || ret == 3
    then give_up s.fatal_scm d
    else if not (ret == 4)
    then record d { state = ready }
    else let (rc, d') = reinit_dsp s.restart d in
      if is_success rc then record d' { state = ready } else d'

abbrev pub takes_queue : DspState → Bool
takes_queue probed = true
takes_queue inactive = true
takes_queue s = false

-- `cvp_dsp_send_hfi_queue`.
unfoldable pub send_hfi_queue : Handing → Dsp → Dsp
send_hfi_queue s d = elim (if s.device && takes_queue d.state then s.table else none) [
  | none ↦ d
  | some (addr, size) ↦
      if addr == 0 || size == 0
      then d
      else let (rc, d') = hyp_assign_to_dsp s.assign_scm addr size d in
        if not (is_success rc)
        then d'
        else let (rc', ret) = send_cmd_sync s.queue_x d' in
          if is_success rc' then queue_answered s ret d' else d'
]

-- The commands of the DSP that switch the power, as `cvp_dsp_thread` serves them: the code sent back,
-- given what the resume of the device returns.
unfoldable pub dsp_power_on : Rc → Dsp → ℕ × Dsp
dsp_power_on resumed d =
    if is_ready d.state
    then (0, d)
    else if is_success resumed
    then (0, record d { state = ready })
    else (1, d)

unfoldable pub dsp_power_off : Dsp → ℕ × Dsp
dsp_power_off d = (0, record d { state = suspended })

-- What wakes `cvp_dsp_thread`: the power commands, and any other one, which leaves the link alone.
pub data DspCommand : Type 0 where
  poweron : Rc → DspCommand
  poweroff other : DspCommand

-- What the thread does when it is woken: it ends, it waits again, or it answers with a code. The
-- answer of another command stands as 0.
pub data Woken : Type 0 where
  ended waits : Dsp → Woken
  answers : ℕ → Dsp → Woken

abbrev pub is_uninit : DspState → Bool
is_uninit uninit = true
is_uninit s = false

abbrev pub is_probed : DspState → Bool
is_probed probed = true
is_probed s = false

unfoldable pub serve_command : DspCommand → Dsp → ℕ × Dsp
serve_command (poweron resumed) d = dsp_power_on resumed d
serve_command poweroff d = dsp_power_off d
serve_command other d = (0, d)

-- One round of `cvp_dsp_thread`.
unfoldable pub thread_round : Handing → DspCommand → Dsp → Woken
thread_round s c d =
    if is_invalid d.state
    then ended d
    else if is_uninit d.state
    then waits d
    else if is_probed d.state
    then waits (send_hfi_queue s d)
    else let (ret, d') = serve_command c d in answers ret d'

-- `cvp_dsp_device_init` up to its thread, given what the registration returns, whether the channel
-- came meanwhile, and whether the thread was made; and `cvp_dsp_device_exit`.
pub device_init : Rc → Bool → Bool → Dsp → Rc × Dsp
device_init registered arrived threaded d =
    let d' = record d { state = invalid; hyp_assigned = false } in
    let d'' = if arrived then rpmsg_probe d' else d' in
    if not (is_success registered)
    then (registered, d'')
    else if threaded
    then (success, if is_invalid d''.state then record d'' { state = uninit } else d'')
    else (failed echild, record d'' { state = invalid })

unfoldable pub device_exit : Dsp → Dsp
device_exit d = record d { state = invalid }
