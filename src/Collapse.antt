-- ===== src/Collapse.antt =====
-- The power of the device (msm/eva/cvp_hfi.c): the way up, with its unwinding, the power collapse,
-- and the work that tries it again. Registers that are only written, log lines, the latency votes,
-- the caches, the debug queue and the registers' memory map are left out. What the hardware, the
-- secure world and the DSP answer is a record of values.
mod Safe
mod Tests
use eva_driver.Prelude.{ℕ, zero, suc, ◌+◌, Bool, true, false, not, ◌&&◌, ◌||◌, List, [], ◌∷◌}
use eva_driver.Prelude.Tests.{leb, if◌then◌else◌}
use eva_driver.Prelude.Errno.{Errno, Rc, success, failed, hfi_error, einval, ebusy, eagain}
use eva_driver.Session.{is_success}

-- `struct iris_hfi_device`: whether it is powered, whether its state is valid, whether its power may
-- be cut, what of it is on, and the collapses that were skipped.
pub record PowerDevice : Type 0 where
  pub power_enabled : Bool
  pub valid : Bool
  pub sw_power_collapsible : Bool
  pub buses : Bool
  pub controller : Bool
  pub core : Bool
  pub skip_pc_count : ℕ

-- What a collapse meets: the answer of the DSP; the bits of the first reads, that the processor is
-- ready for the collapse, waits for an interrupt, and is idle; the sending of the packet that
-- prepares the collapse; the two bits of the reads behind it, of which those not listed are zero;
-- and the answer of the secure world.
pub record Hardware : Type 0 where
  pub dsp_suspend : Rc
  pub pc_ready : Bool
  pub wfi : Bool
  pub idle : Bool
  pub prepare_pc : Rc
  pub reads : List (Bool × Bool)
  pub tz_suspend : Rc

-- `max_tries`.
abbrev pub max_tries : ℕ
max_tries = 150

-- The loop over the status reads: whether one of them shows that the core is ready.
pub poll : ℕ → List (Bool × Bool) → Bool
poll zero rs = false
poll (suc n) [] = false
poll (suc n) ((wfi, pc_ready) ∷ rs) = let rest = poll n rs in if wfi && pc_ready then true else rest

-- `power_off_iris2`.
pub power_off : PowerDevice → PowerDevice
power_off d =
    if not d.power_enabled || not d.sw_power_collapsible
    then d
    else record d { power_enabled = false; buses = false; controller = false; core = false }

-- `__suspend`.
pub suspend : Hardware → PowerDevice → Rc × PowerDevice
unfolding power_off
suspend w d =
    if not d.power_enabled
    then (success, d)
    else if not (is_success w.tz_suspend)
    then (w.tz_suspend, d)
    else (success, power_off d)

-- The tests of `__power_collapse`: whether the core is ready for the collapse.
pub is_collapsible : Hardware → Bool
unfolding poll
is_collapsible w =
    if w.pc_ready
    then w.wfi
    else w.wfi && w.idle && is_success w.prepare_pc && poll max_tries w.reads

-- The collapse behind the answer of the DSP.
pub collapse_core : Hardware → PowerDevice → Rc × PowerDevice
unfolding is_collapsible suspend
collapse_core w d = if is_collapsible w then suspend w d else (failed eagain, d)

-- What an error of the DSP becomes.
pub dsp_error : Errno → Errno
dsp_error ebusy = ebusy
dsp_error einval = einval
dsp_error _ = eagain

pub after_dsp : Rc → Rc × PowerDevice → PowerDevice → Rc × PowerDevice
unfolding dsp_error
after_dsp success go d = go
after_dsp (failed e) go d = (failed (dsp_error e), d)
after_dsp (hfi_error n) go d = (failed eagain, d)

-- `__power_collapse`.
pub power_collapse : Hardware → PowerDevice → Rc × PowerDevice
unfolding collapse_core after_dsp
power_collapse w d =
    if not d.power_enabled
    then (success, d)
    else if not d.valid
    then (failed einval, d)
    else after_dsp w.dsp_suspend (collapse_core w d) d

-- `CVP_MAX_PC_SKIP_COUNT`.
abbrev pub max_pc_skip_count : ℕ
max_pc_skip_count = 10

-- What the work does beside: it is queued again, or the device is given up.
pub data PmResult : Type 0 where
  done queued fatal : PmResult

-- `iris_hfi_pm_handler`, for a core with its device.
pub pm_handler : Hardware → PowerDevice → PmResult × PowerDevice
unfolding power_collapse
pm_handler w d =
    let r = power_collapse w d in
    if leb max_pc_skip_count d.skip_pc_count
    then (fatal, record d { skip_pc_count = 0 })
    else elim r.0 [
      | success ↦ (done, record (r.1) { skip_pc_count = 0 })
      | failed e ↦ elim e [
        | ebusy ↦ (queued, record (r.1) { skip_pc_count = 0 })
        | eagain ↦ (queued, record (r.1) { skip_pc_count = r.1.skip_pc_count + 1 })
        | _ ↦ (done, r.1)
      ]
      | hfi_error n ↦ (done, r.1)
    ]

-- What a power-on meets: whether the last packet prepared a collapse; the codes of the buses, the
-- controller, the core, the registers, the two checks of the power, the secure world and the boot of
-- the firmware.
pub record Rising : Type 0 where
  pub last_pc_prep : Bool
  pub vote_buses : Rc
  pub power_on_controller : Rc
  pub power_on_core : Rc
  pub set_registers : Rc
  pub check_core_power_on : Rc
  pub check_ctl_power_on : Rc
  pub tz_resume : Rc
  pub boot_firmware : Rc

-- The label `fail_enable_core`, behind the power-on of the core.
abbrev pub half_off : PowerDevice → PowerDevice
half_off d = record d { power_enabled = false; buses = false; controller = false; core = true }

-- `__iris_power_on`.
pub iris_power_on : Rising → PowerDevice → Rc × PowerDevice
iris_power_on w d =
    if d.power_enabled
    then (success, d)
    else if not (is_success w.vote_buses)
    then (w.vote_buses, record d { power_enabled = false; buses = false })
    else if not (is_success w.power_on_controller)
    then (w.power_on_controller, record d { power_enabled = false; buses = false })
    else if not (is_success w.power_on_core)
    then (w.power_on_core, record d { power_enabled = false; buses = false; controller = false })
    else if not (is_success w.set_registers)
    then (w.set_registers, half_off d)
    else if not (is_success w.check_core_power_on)
    then (failed einval, half_off d)
    else if not (is_success w.check_ctl_power_on)
    then (failed einval, half_off d)
    else (success, record d { power_enabled = true; buses = true; controller = true; core = true })

-- The end of `__resume` that counts.
abbrev pub resumed : Rising → PowerDevice → PowerDevice
resumed w d = record d { skip_pc_count = if w.last_pc_prep then d.skip_pc_count else 0 }

-- `__resume`.
pub resume : Rising → PowerDevice → Rc × PowerDevice
unfolding iris_power_on power_off
resume w d =
    let on = iris_power_on w d in
    if d.power_enabled
    then (success, resumed w d)
    else if not d.valid
    then (failed einval, d)
    else if not (is_success on.0)
    then on
    else if not (is_success w.tz_resume)
    then (w.tz_resume, power_off on.1)
    else if not (is_success w.boot_firmware)
    then (w.boot_firmware, power_off on.1)
    else (success, resumed w on.1)
