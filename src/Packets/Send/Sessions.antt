-- ===== src/Packets/Send/Sessions.antt =====
-- The commands of a session that the device layer makes and sends (msm/eva/cvp_hfi.c).
use eva_driver.Prelude.{ℕ, ◌/◌, ◌%◌, ◌^◌, Bool, false, not, ◌||◌, Option, none, some, List}
use eva_driver.Prelude.Tests.{◌==◌, if◌then◌else◌}
use eva_driver.Prelude.Lists.{set}
use eva_driver.Prelude.Words.{u32_mod}
use eva_driver.Prelude.Errno.{Rc, success, failed, einval, econnreset}
use eva_driver.Session.{is_success}
use eva_driver.Iface.{Device}
use eva_driver.Packets.Session
use eva_driver.Packets.Send.{send_made, code_kept, sys_set_coverage}

-- A session that is handed to the device layer: none, one that has lost its device, or one with a
-- pointer to its instance.
pub data SessionPtr : Type 0 where
  null no_device : SessionPtr
  on_device : Option Session.PacketInst → SessionPtr

-- `__send_session_cmd`, given whether the session is one of the device's.
unfoldable pub send_session_cmd :
    Bool → ℕ → Option Session.PacketInst → List ℕ → Rc → Device → Option (Rc × Bool × Device)
send_session_cmd valid pkt_type i stack resumed dev =
    if not valid
    then some (failed econnreset, false, dev)
    else send_made code_kept resumed
        (Session.for_inst (some i) (Session.session_cmd_fields pkt_type) (some stack)) dev

-- `__send_session_cmd_ktid`.
unfoldable pub send_session_cmd_ktid :
    Bool → ℕ → ℕ → SessionPtr → List ℕ → Rc → Device → Option (Rc × Bool × Device)
send_session_cmd_ktid valid pkt_type ktid (on_device i) stack resumed dev =
    if not valid
    then some (failed econnreset, false, dev)
    else send_made code_kept resumed
        (Session.for_inst (some i) (Session.session_cmd_ktid_fields pkt_type ktid) (some stack)) dev
send_session_cmd_ktid valid pkt_type ktid null stack resumed dev = some (failed einval, false, dev)
send_session_cmd_ktid valid pkt_type ktid no_device stack resumed dev =
    some (failed einval, false, dev)

-- `iris_hfi_session_end`, which may ask for the coverage first. Each write has its own answer to a
-- resume.
pub session_end_cmd :
    ℕ → Bool → Bool → SessionPtr → List ℕ → Rc × Rc → Device → Option (Rc × Bool × Device)
session_end_cmd fw_coverage granted valid (on_device i) stack (r, r') dev =
    elim (if fw_coverage == 0
      then some (success, false, dev)
      else sys_set_coverage granted fw_coverage r dev) [
        | none ↦ none
        | some (rc, raised, dev') ↦ elim (send_session_cmd valid 0x10008 i stack r' dev') [
          | none ↦ none
          | some (rc', raised', dev'') ↦ some (rc', raised || raised', dev'')
        ]
      ]
session_end_cmd fw_coverage granted valid null stack rs dev = some (failed einval, false, dev)
session_end_cmd fw_coverage granted valid no_device stack rs dev = some (failed einval, false, dev)

-- Whatever fails, the code is -EINVAL.
abbrev pub code_invalid : Option (Rc × Bool × Device) → Option (Rc × Bool × Device)
code_invalid none = none
code_invalid (some (rc, raised, dev)) =
    some (if is_success rc then success else failed einval, raised, dev)

-- `iris_hfi_session_abort`.
pub hfi_session_abort : Bool → SessionPtr → List ℕ → Rc → Device → Option (Rc × Bool × Device)
hfi_session_abort valid (on_device i) stack resumed dev =
    send_session_cmd valid 0x1000A i stack resumed dev
hfi_session_abort valid null stack resumed dev = some (failed einval, false, dev)
hfi_session_abort valid no_device stack resumed dev = some (failed einval, false, dev)

-- The number of a command, without the bit that marks fences, in the words of a packet on the stack.
unfoldable pub with_kdata : ℕ → List ℕ → List ℕ
with_kdata ktid stack = set (set stack 6 (ktid % u32_mod)) 7 (ktid / u32_mod % u32_mod)

-- `iris_hfi_session_set_buffers`, given whether the instance was found by its number, and the
-- core's next number of a command.
unfoldable pub session_set_buffers :
    Bool → Bool → ℕ → ℕ → ℕ → SessionPtr → List ℕ → Rc → Device → Option (Rc × Bool × Device)
unfolding with_kdata
session_set_buffers valid found ktid iova size (on_device i) stack resumed dev =
    if iova == 0 || size == 0
    then some (failed einval, false, dev)
    else if not valid
    then some (failed econnreset, false, dev)
    else if not found
    then some (failed einval, false, dev)
    else send_made code_kept resumed
        (Session.for_inst (some i) (Session.session_set_buffers_fields iova size)
          (some (with_kdata (ktid % 2 ^ 63) stack)))
        dev
session_set_buffers valid found ktid iova size null stack resumed dev =
    some (failed einval, false, dev)
session_set_buffers valid found ktid iova size no_device stack resumed dev =
    some (failed einval, false, dev)

-- `iris_hfi_session_release_buffers`.
unfoldable pub session_release_buffers :
    Bool → Bool → ℕ → SessionPtr → List ℕ → Rc → Device → Option (Rc × Bool × Device)
unfolding with_kdata
session_release_buffers valid found ktid (on_device i) stack resumed dev =
    if not valid
    then some (failed econnreset, false, dev)
    else if not found
    then some (failed einval, false, dev)
    else send_made code_kept resumed
        (Session.for_inst (some i) Session.session_release_buffers_fields
          (some (with_kdata (ktid % 2 ^ 63) stack)))
        dev
session_release_buffers valid found ktid null stack resumed dev = some (failed einval, false, dev)
session_release_buffers valid found ktid no_device stack resumed dev =
    some (failed einval, false, dev)

-- The packet of `iris_hfi_session_init` for a session that has its number: its making and its write,
-- which both fail with -EINVAL.
unfoldable pub send_session_init :
    Option Session.PacketInst → List ℕ → Rc → Device → Option (Rc × Bool × Device)
send_session_init i stack resumed dev = code_invalid (
    send_made code_kept resumed (Session.for_inst (some i) Session.session_init_fields (some stack))
      dev)
