-- ===== src/Packets.antt =====
-- The packets of the driver's commands (msm/eva/hfi_packetization.c), in the layout of
-- msm/eva/cvp_hfi_v1.h. A buffer is the list of its words, and a null pointer is `none`. A result of
-- `none` is a store outside the buffer. Log lines are left out.
pub mod Session
pub mod Resource
pub mod Send
mod Filled
mod Layout
mod Sent
pub mod Index
mod Numbered
mod Accepts
mod Subcaches
mod Tests
use eva_driver.Prelude.{
  ℕ, zero, suc, ◌+◌, ◌*◌, ◌/◌, ◌%◌, ◌^◌, Bool, true, false, Option, none, some, List, [], ◌∷◌,
}
use eva_driver.Prelude.Tests.{ltb, leb, ◌==◌, if◌then◌else◌}
use eva_driver.Prelude.Lists.{length, get_elem?, get_or, set}
use eva_driver.Prelude.Words.{add32, u32_mod}
use eva_driver.Prelude.Errno.{Rc, success, failed, einval, enotsupp}

-- The types of the commands, and the properties that can be set.
abbrev pub cmd_sys_init : ℕ
cmd_sys_init = 0x10001

abbrev pub cmd_sys_pc_prep : ℕ
cmd_sys_pc_prep = 0x10002

abbrev pub cmd_sys_set_resource : ℕ
cmd_sys_set_resource = 0x10003

abbrev pub cmd_sys_release_resource : ℕ
cmd_sys_release_resource = 0x10004

abbrev pub cmd_sys_set_property : ℕ
cmd_sys_set_property = 0x10005

abbrev pub cmd_sys_get_property : ℕ
cmd_sys_get_property = 0x10006

abbrev pub cmd_sys_session_init : ℕ
cmd_sys_session_init = 0x10007

abbrev pub cmd_sys_test_ssr : ℕ
cmd_sys_test_ssr = 0x10101

abbrev pub cmd_session_set_buffers : ℕ
cmd_session_set_buffers = 0x4011001

abbrev pub cmd_session_release_buffers : ℕ
cmd_session_release_buffers = 0x4011002

abbrev pub property_debug_config : ℕ
property_debug_config = 1

abbrev pub property_idle_indicator : ℕ
property_idle_indicator = 4

abbrev pub property_power_plane_ctrl : ℕ
property_power_plane_ctrl = 5

abbrev pub property_image_version : ℕ
property_image_version = 6

abbrev pub property_config_coverage : ℕ
property_config_coverage = 7

abbrev pub property_ubwc_config : ℕ
property_ubwc_config = 8

abbrev pub resource_syscache : ℕ
resource_syscache = 2

-- The code that a function returns, and the buffer.
pub record Made : Type 0 where
  pub rc : Rc
  pub pkt : Option (List ℕ)

-- Assignments to words of the buffer, in their order.
pub stores : List ℕ → List (ℕ × ℕ) → Option (List ℕ)
stores buf [] = some buf
stores buf ((i, v) ∷ rest) =
    let more = stores (set buf i v) rest in if ltb i (length buf) then more else none

pub fill : Rc → List (ℕ × ℕ) → List ℕ → Option Made
fill rc fields buf = elim (stores buf fields) [
  | none ↦ none
  | some b ↦ some (record { rc = rc; pkt = some b })
]

abbrev invalid : Option (List ℕ) → Option Made
invalid pkt = some (record { rc = failed einval; pkt = pkt })

-- A packet that needs its buffer only.
abbrev pub make : List (ℕ × ℕ) → Option (List ℕ) → Option Made
make fields none = invalid none
make fields (some buf) = fill success fields buf

-- `cvp_create_pkt_cmd_sys_init`.
abbrev pub sys_init_fields : ℕ → List (ℕ × ℕ)
sys_init_fields arch_type = (1, cmd_sys_init) ∷ (0, 12) ∷ (2, arch_type) ∷ []

-- `cvp_create_pkt_cmd_sys_pc_prep`.
abbrev pub sys_pc_prep_fields : List (ℕ × ℕ)
sys_pc_prep_fields = (1, cmd_sys_pc_prep) ∷ (0, 8) ∷ []

-- `cvp_create_pkt_cmd_sys_debug_config`, given `msm_cvp_fw_debug_mode`.
abbrev pub sys_debug_config_fields : ℕ → ℕ → List (ℕ × ℕ)
sys_debug_config_fields fw_debug_mode mode =
    (0, 24)
    ∷ (1, cmd_sys_set_property)
    ∷ (2, 1)
    ∷ (3, property_debug_config)
    ∷ (4, mode)
    ∷ (5, 1)
    ∷ (if leb fw_debug_mode 3 then (5, fw_debug_mode) ∷ [] else [])

-- `cvp_create_pkt_cmd_sys_coverage_config`.
abbrev pub sys_coverage_config_fields : ℕ → List (ℕ × ℕ)
sys_coverage_config_fields mode =
    (0, 20) ∷ (1, cmd_sys_set_property) ∷ (2, 1) ∷ (3, property_config_coverage) ∷ (4, mode) ∷ []

-- `cvp_create_pkt_cmd_sys_set_idle_indicator`.
abbrev pub sys_set_idle_indicator_fields : ℕ → List (ℕ × ℕ)
sys_set_idle_indicator_fields mode =
    (0, 20) ∷ (1, cmd_sys_set_property) ∷ (2, 1) ∷ (3, property_idle_indicator) ∷ (4, mode) ∷ []

-- `cvp_create_pkt_cmd_sys_power_control`.
abbrev pub sys_power_control_fields : ℕ → List (ℕ × ℕ)
sys_power_control_fields enable =
    (0, 20) ∷ (1, cmd_sys_set_property) ∷ (2, 1) ∷ (3, property_power_plane_ctrl) ∷ (4, enable) ∷ []

-- `cvp_create_pkt_cmd_sys_image_version`.
abbrev pub sys_image_version_fields : List (ℕ × ℕ)
sys_image_version_fields =
    (0, 16) ∷ (1, cmd_sys_get_property) ∷ (2, 1) ∷ (3, property_image_version) ∷ []

-- `struct msm_cvp_ubwc_config_data`; the five flags of `override_bit_info` are one number.
pub record UbwcConfig : Type 0 where
  pub override_bit_info : ℕ
  pub max_channels : ℕ
  pub mal_length : ℕ
  pub highest_bank_bit : ℕ
  pub bank_swzl_level : ℕ
  pub bank_spreading : ℕ

-- `create_pkt_cmd_sys_ubwc_config`. The flags are the low five bits of the word that `flags` is; the
-- others stay.
abbrev pub sys_ubwc_config_fields : UbwcConfig → ℕ → List (ℕ × ℕ)
sys_ubwc_config_fields u flags =
    (0, 56)
    ∷ (1, cmd_sys_set_property)
    ∷ (2, 1)
    ∷ (3, property_ubwc_config)
    ∷ (7, u.max_channels)
    ∷ (8, u.mal_length)
    ∷ (9, u.highest_bank_bit)
    ∷ (10, u.bank_swzl_level)
    ∷ (11, u.bank_spreading)
    ∷ (6, flags / 32 * 32 + u.override_bit_info % 32)
    ∷ (4, 40)
    ∷ []

pub sys_ubwc_config : UbwcConfig → Option (List ℕ) → Option Made
sys_ubwc_config u none = invalid none
sys_ubwc_config u (some buf) = fill success (sys_ubwc_config_fields u (get_or buf 6 0)) buf

-- `enum hal_ssr_trigger_type` as a number, and what `get_hfi_ssr_type` makes of it.
abbrev pub get_hfi_ssr_type : ℕ → ℕ
get_hfi_ssr_type type =
    if type == 1
    then 1
    else if type == 2
    then 2
    else if type == 3
    then 3
    else if type == 5
    then 1
    else if type == 8
    then 1
    else if type == 6
    then 6
    else type

-- `cvp_create_pkt_ssr_cmd`.
abbrev pub ssr_cmd_fields : ℕ → List (ℕ × ℕ)
ssr_cmd_fields type = (0, 12) ∷ (1, cmd_sys_test_ssr) ∷ (2, get_hfi_ssr_type type) ∷ []
