-- ===== src/Dsp.antt =====
-- The link to the DSP (msm/eva/msm_cvp_dsp.c): its state, the commands that are sent to it and wait
-- for its answer, and the memory of the queues that is shared with it. What the kernel's channel,
-- the hypervisor and the DSP answer is an argument. Waits and log lines are left out.
pub mod Suspend
pub mod Thread
pub mod Shared
pub mod Ends
pub mod Callback
pub mod Buffers
pub mod Counted
pub mod Nodes
pub mod Named
pub mod Processes
pub mod Handlers
pub mod Tasks
mod Tests
use eva_driver.Prelude.{ℕ, Bool, true, false, not, ◌&&◌, ◌||◌, Option, none, some, List, ◌∷◌}
use eva_driver.Prelude.Tests.{◌==◌, if◌then◌else◌}
use eva_driver.Prelude.Errno.{
  Rc, success, failed, einval, ebusy, etimedout, enotsupp, echild, enodev,
}
use eva_driver.Session.{is_success}

-- `enum dsp_state`.
pub data DspState : Type 0 where
  invalid uninit probed ready suspended inactive : DspState

abbrev pub is_invalid : DspState → Bool
is_invalid invalid = true
is_invalid s = false

abbrev pub is_ready : DspState → Bool
is_ready ready = true
is_ready s = false

abbrev pub is_suspended : DspState → Bool
is_suspended suspended = true
is_suspended s = false

-- A call of the hypervisor that succeeded: memory at an address, of a size, is shared with the DSP,
-- or taken back.
pub data ScmCall : Type 0 where
  share take_back : ℕ → ℕ → ScmCall

-- The part of `struct cvp_dsp_apps` for the link, and the calls of the hypervisor, the latest first.
pub record Dsp : Type 0 where
  pub chan : Bool
  pub state : DspState
  pub hyp_assigned : Bool
  pub addr : ℕ
  pub size : ℕ
  pub calls : List ScmCall

-- What comes of a command: what `rpmsg_send` returns, and the code of the DSP's answer if it comes
-- in time.
pub record Exchange : Type 0 where
  pub sent : Rc
  pub reply : Option ℕ

-- `cvp_dsp_send_cmd`.
pub send_cmd : Rc → Dsp → Rc
send_cmd sent d = if not d.chan || not (is_success sent) then failed einval else success

-- `cvp_dsp_send_cmd_sync`: the code, and that of the answer.
pub send_cmd_sync : Exchange → Dsp → Rc × ℕ
send_cmd_sync x d =
    if is_success (send_cmd x.sent d)
    then elim x.reply [ none ↦ (failed etimedout, 0) | some ret ↦ (success, ret) ]
    else (send_cmd x.sent d, 0)

-- `cvp_hyp_assign_to_dsp` and `cvp_hyp_assign_from_dsp`, given what the hypervisor returns.
pub hyp_assign_to_dsp : Rc → ℕ → ℕ → Dsp → Rc × Dsp
hyp_assign_to_dsp scm addr size d =
    if d.hyp_assigned then (success, d) else if not (is_success scm) then (scm, d) else (
      success,
      record d { addr = addr; size = size; hyp_assigned = true; calls = share addr size ∷ d.calls },
    )

pub hyp_assign_from_dsp : Rc → Dsp → Rc × Dsp
hyp_assign_from_dsp scm d =
    if not d.hyp_assigned then (success, d) else if not (is_success scm) then (scm, d) else (
      success,
      record d {
        addr = 0;
        size = 0;
        hyp_assigned = false;
        calls = take_back d.addr d.size ∷ d.calls;
      },
    )

-- `cvp_dsp_rpmsg_probe` for the DSP's own channel.
pub rpmsg_probe : Dsp → Dsp
rpmsg_probe d = record d { chan = true; state = probed }

-- `cvp_dsp_rpmsg_remove`.
pub rpmsg_remove : Rc → Dsp → Dsp
rpmsg_remove scm d = record (hyp_assign_from_dsp scm d).1 { chan = false; state = uninit }

-- `cvp_dsp_shutdown`.
pub shutdown : Exchange → Rc → Dsp → Rc × Dsp
shutdown x scm d =
    if is_invalid d.state
    then (success, d)
    else let d' = record d { state = inactive } in
      let rc = (send_cmd_sync x d').0 in
      if is_success rc then hyp_assign_from_dsp scm d' else (rc, (hyp_assign_from_dsp scm d').1)

-- What a reinitialisation meets: whether the device is there; the shutdown and its hypervisor; the
-- queues' memory, `none` if they were released; the hypervisor again, the exchange of the queues,
-- and the hypervisor where it fails.
pub record Restart : Type 0 where
  pub device : Bool
  pub shutdown_x : Exchange
  pub shutdown_scm : Rc
  pub table : Option (ℕ × ℕ)
  pub assign_scm : Rc
  pub queue_x : Exchange
  pub fail_scm : Rc

-- The end of `__reinit_dsp`, from the queues on.
pub resend_queue : Restart → Dsp → Rc × Dsp
resend_queue r d = elim r.table [
  | none ↦ (failed einval, d)
  | some (addr, size) ↦
      if addr == 0 || size == 0
      then (success, d)
      else let (rc, d') = hyp_assign_to_dsp r.assign_scm addr size d in
        if not (is_success rc)
        then (rc, d')
        else let (rc', ret) = send_cmd_sync r.queue_x d' in
          if not (is_success rc')
          then (rc', d')
          else if ret == 0
          then (success, d')
          else (failed enodev, d')
]

-- `__reinit_dsp`.
pub reinit : Restart → Dsp → Rc × Dsp
reinit r d =
    if not r.device
    then (failed einval, d)
    else let (rc, d') = shutdown r.shutdown_x r.shutdown_scm d in
      if is_success rc then resend_queue r d' else (rc, d')

-- A failure that the link does not survive.
pub give_up : Rc → Dsp → Dsp
give_up scm d = (hyp_assign_from_dsp scm (record d { state = invalid })).1

-- `cvp_reinit_dsp`.
pub reinit_dsp : Restart → Dsp → Rc × Dsp
reinit_dsp r d =
    let (rc, d') = reinit r d in if is_success rc then (rc, d') else (rc, give_up r.fail_scm d')
