-- ===== src/Packets/Session.antt =====
-- The packets of a session (msm/eva/hfi_packetization.c).
use eva_driver.Prelude.{ℕ, ◌/◌, ◌%◌, Option, none, some, List, [], ◌∷◌}
use eva_driver.Prelude.Words.{u32_mod}
use eva_driver.Prelude.Errno.{success}
use eva_driver.Packets.{
  Made, fill, invalid, cmd_sys_session_init, cmd_session_set_buffers, cmd_session_release_buffers,
}

-- What the packets use of `struct msm_cvp_inst` and of its properties.
pub record PacketInst : Type 0 where
  pub sess_id : ℕ
  pub type : ℕ
  pub kernel_mask : ℕ
  pub priority : ℕ
  pub is_secure : ℕ
  pub dsp_mask : ℕ

-- A pointer to a session, whose `session_id` is a pointer to its instance.
abbrev pub Session : Type 0
Session = Option (Option PacketInst)

-- A packet that needs the instance of its session and its buffer.
abbrev pub for_inst : Session → (PacketInst → List (ℕ × ℕ)) → Option (List ℕ) → Option Made
for_inst none fields pkt = invalid pkt
for_inst (some none) fields pkt = invalid pkt
for_inst (some (some i)) fields none = invalid none
for_inst (some (some i)) fields (some buf) = fill success (fields i) buf

-- `cvp_create_pkt_cmd_sys_session_init`.
abbrev pub session_init_fields : PacketInst → List (ℕ × ℕ)
session_init_fields i =
    (0, 32)
    ∷ (1, cmd_sys_session_init)
    ∷ (2, i.sess_id)
    ∷ (3, i.type)
    ∷ (4, i.kernel_mask)
    ∷ (5, i.priority)
    ∷ (6, i.is_secure)
    ∷ (7, i.dsp_mask)
    ∷ []

-- `cvp_create_pkt_cmd_session_cmd`.
abbrev pub session_cmd_fields : ℕ → PacketInst → List (ℕ × ℕ)
session_cmd_fields pkt_type i = (0, 12) ∷ (1, pkt_type) ∷ (2, i.sess_id) ∷ []

-- `cvp_session_cmd_ktid`. The number is two words of the client's data.
abbrev pub session_cmd_ktid_fields : ℕ → ℕ → PacketInst → List (ℕ × ℕ)
session_cmd_ktid_fields pkt_type ktid i =
    (0, 44)
    ∷ (1, pkt_type)
    ∷ (2, i.sess_id)
    ∷ (6, ktid % u32_mod)
    ∷ (7, ktid / u32_mod % u32_mod)
    ∷ []

-- `cvp_create_pkt_cmd_session_set_buffers`.
abbrev pub session_set_buffers_fields : ℕ → ℕ → PacketInst → List (ℕ × ℕ)
session_set_buffers_fields iova size i =
    (1, cmd_session_set_buffers) ∷ (2, i.sess_id) ∷ (11, size) ∷ (0, 84) ∷ (10, iova) ∷ []

-- `cvp_create_pkt_cmd_session_release_buffers`, for its one buffer.
abbrev pub session_release_buffers_fields : PacketInst → List (ℕ × ℕ)
session_release_buffers_fields i =
    (1, cmd_session_release_buffers) ∷ (2, i.sess_id) ∷ (12, 1) ∷ (11, 0) ∷ (0, 56) ∷ []
