-- ===== src/Collapse/Tests.antt =====
-- The power of the device, and the theorems about it, at concrete inputs.
use eva_driver.Prelude.{◌≡◌, refl, true, false, ◌⊎◌, [], ◌∷◌}
use eva_driver.Prelude.Errno.{success, failed, eio}
use eva_driver.Session.{is_success}
use eva_driver.Collapse.{
  PowerDevice, Hardware, Rising, poll, power_off, suspend, is_collapsible, collapse_core, after_dsp,
  power_collapse, pm_handler, resume, half_off, fatal,
}
use eva_driver.Collapse.Safe.{IsReady, IsOff, IsOn, power_collapse_lem, resume_lem}

abbrev device : PowerDevice
device = record {
  power_enabled = true;
  valid = true;
  sw_power_collapsible = true;
  buses = true;
  controller = true;
  core = true;
  skip_pc_count = 10;
}

abbrev off : PowerDevice
off = record device { power_enabled = false; buses = false; controller = false; core = false }

-- The processor is ready at the third read.
abbrev hardware : Hardware
hardware = record {
  dsp_suspend = success;
  pc_ready = false;
  wfi = true;
  idle = true;
  prepare_pc = success;
  reads = (true, false) ∷ (false, true) ∷ (true, true) ∷ [];
  tz_suspend = success;
}

abbrev rising : Rising
rising = record {
  last_pc_prep = false;
  vote_buses = success;
  power_on_controller = success;
  power_on_core = success;
  set_registers = success;
  check_core_power_on = failed eio;
  check_ctl_power_on = success;
  tz_resume = success;
  boot_firmware = success;
}

collapsed : power_collapse hardware device ≡ (success, off)
unfolding power_collapse collapse_core after_dsp is_collapsible poll suspend power_off
collapsed = refl

-- After ten collapses that were skipped, the device is given up.
given_up : pm_handler hardware device ≡ (fatal, record device { skip_pc_count = 0 })
unfolding pm_handler
given_up = refl

power_collapse_lem_example :
    let (rc, d') = power_collapse hardware device in
    (d' ≡ device)
    ⊎ (IsOff d'
        × (rc ≡ success)
        × (device.power_enabled ≡ true)
        × (device.valid ≡ true)
        × (hardware.dsp_suspend ≡ success)
        × (is_success hardware.tz_suspend ≡ true)
        × IsReady hardware)
power_collapse_lem_example = power_collapse_lem hardware device

resume_lem_example :
    let (rc, d') = resume rising off in
    ((rc ≡ success) × IsOn d' × (off.valid ≡ true) × (is_success rising.boot_firmware ≡ true))
    ⊎ ((is_success rc ≡ false) × IsOff d')
    ⊎ ((is_success rc ≡ false)
        × (d' ≡ half_off off)
        × (is_success rising.power_on_core ≡ true)
        × ((is_success rising.set_registers ≡ false)
            ⊎ (is_success rising.check_core_power_on ≡ false)
            ⊎ (is_success rising.check_ctl_power_on ≡ false)))
resume_lem_example = resume_lem rising off refl (refl, refl, refl, refl)
