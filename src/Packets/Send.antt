-- ===== src/Packets/Send.antt =====
-- The commands that the device layer makes and sends (msm/eva/cvp_hfi.c). What `__resume` returns
-- is an argument. A packet that is allocated is its buffer, `none` where memory is short; a packet
-- on the stack holds what was there.
pub mod Sessions
use eva_driver.Prelude.{
  ℕ, ◌+◌, ◌*◌, ◌/◌, ◌%◌, ◌^◌, Bool, false, not, ◌&&◌, ◌||◌, Option, none, some, List,
}
use eva_driver.Prelude.Tests.{ltb, ◌==◌, if◌then◌else◌}
use eva_driver.Prelude.Lists.{replicate, set}
use eva_driver.Prelude.Words.{u32_mod}
use eva_driver.Prelude.Errno.{Rc, success, failed, einval, enotempty, eagain, econnreset}
use eva_driver.Session.{is_success}
use eva_driver.Iface.{Device, cmdq_write}
use eva_driver.Packets
use eva_driver.Packets.Session
use eva_driver.Packets.Resource

-- `kzalloc` of so many words, or its failure.
abbrev pub kzalloc : Bool → ℕ → Option (List ℕ)
kzalloc granted n = if granted then some (replicate n 0) else none

-- `__iface_cmdq_write` with a packet that may be null.
unfoldable pub submit : Rc → Option (List ℕ) → Device → Option (Rc × Bool × Device)
submit resumed none dev = some (failed einval, false, dev)
submit resumed (some packet) dev = cmdq_write resumed packet dev

-- The code is -ENOTEMPTY where the write fails.
abbrev pub write_code : Option (Rc × Bool × Device) → Option (Rc × Bool × Device)
write_code none = none
write_code (some (rc, raised, dev)) =
    some (if is_success rc then success else failed enotempty, raised, dev)

-- A packet that could be made is written; a packet that could not is the code `on_fail`.
unfoldable pub send_made :
    (Rc → Rc) → Rc → Option Packets.Made → Device → Option (Rc × Bool × Device)
send_made on_fail resumed none dev = none
send_made on_fail resumed (some m) dev =
    if is_success m.rc
    then write_code (submit resumed m.pkt dev)
    else some (on_fail m.rc, false, dev)

abbrev pub code_kept : Rc → Rc
code_kept rc = rc

abbrev pub code_not_empty : Rc → Rc
code_not_empty rc = failed enotempty

-- `__sys_set_debug`.
unfoldable pub sys_set_debug : Bool → ℕ → ℕ → Rc → Device → Option (Rc × Bool × Device)
sys_set_debug granted fw_debug_mode debug resumed dev =
    send_made code_not_empty resumed
      (Packets.make (Packets.sys_debug_config_fields fw_debug_mode debug) (kzalloc granted 6)) dev

-- The packet is written whatever the code of its making was.
unfoldable pub write_made : Rc → Option Packets.Made → Device → Option (Rc × Bool × Device)
write_made resumed none dev = none
write_made resumed (some m) dev = write_code (submit resumed m.pkt dev)

-- `__sys_set_idle_indicator`.
unfoldable pub sys_set_idle_indicator : Bool → ℕ → Rc → Device → Option (Rc × Bool × Device)
sys_set_idle_indicator granted enable resumed dev =
    write_made resumed
      (Packets.make (Packets.sys_set_idle_indicator_fields enable) (kzalloc granted 5)) dev

abbrev pub code_dropped : Option (Rc × Bool × Device) → Option (Rc × Bool × Device)
code_dropped none = none
code_dropped (some (rc, raised, dev)) = some (success, raised, dev)

-- `__sys_set_coverage`, which returns 0 whatever happened.
unfoldable pub sys_set_coverage : Bool → ℕ → Rc → Device → Option (Rc × Bool × Device)
sys_set_coverage granted mode resumed dev = code_dropped (
    send_made code_not_empty resumed
      (Packets.make (Packets.sys_coverage_config_fields mode) (kzalloc granted 5)) dev)

-- `__sys_set_power_control`, given whether some power domain supports it.
unfoldable pub sys_set_power_control : Bool → Bool → ℕ → Rc → Device → Option (Rc × Bool × Device)
sys_set_power_control supported granted enable resumed dev =
    if not supported
    then some (success, false, dev)
    else write_made resumed
        (Packets.make (Packets.sys_power_control_fields enable) (kzalloc granted 5)) dev

-- `__set_ubwc_config`.
unfoldable pub set_ubwc_config :
    Option Packets.UbwcConfig → Bool → Rc → Device → Option (Rc × Bool × Device)
set_ubwc_config none granted resumed dev = some (success, false, dev)
set_ubwc_config (some u) granted resumed dev =
    send_made code_not_empty resumed (Packets.sys_ubwc_config u (kzalloc granted 14)) dev

-- The first packet of `iris_hfi_core_init`; `stack` is what the packet's words held.
unfoldable pub send_sys_init : List ℕ → Rc → Device → Option (Rc × Bool × Device)
send_sys_init stack resumed dev =
    send_made code_kept resumed (Packets.make (Packets.sys_init_fields 0) (some stack)) dev

-- The second one, whose failure is only logged.
unfoldable pub send_image_version : Bool → Rc → Device → Option (Rc × Bool × Device)
send_image_version granted resumed dev = code_dropped (
    send_made code_kept resumed (Packets.make Packets.sys_image_version_fields (kzalloc granted 4))
      dev)

-- `__prepare_pc`.
unfoldable pub send_prepare_pc : List ℕ → Rc → Device → Option (Rc × Bool × Device)
send_prepare_pc stack resumed dev =
    send_made code_kept resumed (Packets.make Packets.sys_pc_prep_fields (some stack)) dev

-- `iris_hfi_core_trigger_ssr` for a device, given whether its lock was free.
unfoldable pub core_trigger_ssr : Bool → ℕ → List ℕ → Rc → Device → Option (Rc × Bool × Device)
core_trigger_ssr locked type stack resumed dev =
    if not locked
    then some (failed eagain, false, dev)
    else send_made code_kept resumed (Packets.make (Packets.ssr_cmd_fields type) (some stack)) dev

-- `__core_set_resource` for a resource and its value.
unfoldable pub core_set_resource :
    (ℕ → ℕ)
    → Bool
    → Resource.ResourceHdr
    → Resource.SyscacheInfo
    → Rc
    → Device
    → Option (Rc × Bool × Device)
core_set_resource hash32_ptr granted hdr info resumed dev =
    let pkt_size : ℕ =
      if hdr.resource_id == 1 && ltb 0 info.num_entries
      then (20 + 8 * info.num_entries) % u32_mod
      else 20 in
    send_made code_kept resumed
      (Resource.sys_set_resource hash32_ptr (some hdr) (some info) (kzalloc granted (pkt_size / 4)))
      dev

-- `__core_release_resource` for a resource.
unfoldable pub core_release_resource :
    (ℕ → ℕ) → Resource.ResourceHdr → List ℕ → Rc → Device → Option (Rc × Bool × Device)
core_release_resource hash32_ptr hdr stack resumed dev =
    send_made code_kept resumed (Resource.sys_release_resource hash32_ptr (some hdr) (some stack))
      dev
