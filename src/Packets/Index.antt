-- ===== src/Packets/Index.antt =====
-- Which commands of a client are known: the index of a packet's type in the platform's table
-- (msm/eva/msm_cvp_platform.c), the test of a packet before it is sent
-- (msm/eva/hfi_packetization.c), and its checksum (msm/eva/cvp_hfi.c). The table is an argument. A
-- result of `none` is a read outside the table or the packet.
use eva_driver.Prelude.{
  ℕ, zero, suc, ◌+◌, ◌-◌, ◌*◌, ◌/◌, ◌%◌, ◌^◌, Bool, true, false, not, ◌&&◌, ◌||◌, Option, none,
  some, List, ◌∷◌,
}
use eva_driver.Prelude.Tests.{ltb, leb, ◌==◌, if◌then◌else◌}
use eva_driver.Prelude.Lists.{length, get_elem?, set}
use eva_driver.Prelude.Words.{u32_mod, add64}
use eva_driver.Prelude.Errno.{Rc, success, failed, einval, econnreset, enodev}
use eva_driver.Session.{is_success}
use eva_driver.Messages.{max_pkt_idx, max_hfi_pkt_size}
use eva_driver.Iface.{Device, cmdq_write}
use eva_driver.Packets.Session.{PacketInst, Session}
use eva_driver.Packets.Send.{write_code}
use eva_driver.Packets.Send.Sessions.{SessionPtr, null, no_device, on_device}

-- `struct msm_cvp_hfi_defs`, without the name and the response.
pub record HfiDef : Type 0 where
  pub size : ℕ
  pub type : ℕ
  pub config_pkt : Bool
  pub force_kernel_fence : Bool

abbrev pub cmd_session_start : ℕ
cmd_session_start = 0x4011000

abbrev pub msg_session_start : ℕ
msg_session_start = 0x4021000

-- The index of a type of the second version, as a word: the bits 12 and 13 tell which range it is in.
unfoldable pub index_v2 : ℕ → ℕ
index_v2 t =
    let twelve = t / 4096 % 2 == 1 in
    let thirteen = t / 8192 % 2 == 1 in
    if twelve && thirteen
    then (t + u32_mod - 0x1203000 + 0x96) % u32_mod
    else if not twelve && thirteen
    then (t + u32_mod - 0x1202000 + 0x64) % u32_mod
    else if twelve && not thirteen
    then (t + u32_mod - 0x1201000 + 0x32) % u32_mod
    else (t + u32_mod - 0x1200000) % u32_mod

-- The entry at the index: a code of -EINVAL is `some none`. A word from 2 ^ 31 on is a negative `int`.
unfoldable pub known_index : List HfiDef → ℕ → Option (Option ℕ)
known_index defs i = elim (get_elem? defs i) [
  | none ↦ none
  | some d ↦ some (if d.size == 0 then none else some i)
]

-- `get_pkt_index_from_type`, and `get_pkt_index` of a packet with this type.
unfoldable pub get_pkt_index_from_type : ℕ → List HfiDef → ℕ → Option (Option ℕ)
get_pkt_index_from_type hfi_ver defs t =
    if hfi_ver == 1
    then (if ltb t cmd_session_start || leb (cmd_session_start + max_pkt_idx) t
        then some none
        else known_index defs (t - cmd_session_start))
    else if leb (2 ^ 31) (index_v2 t) || leb max_pkt_idx (index_v2 t)
    then some none
    else known_index defs (index_v2 t)

pub get_pkt_index : ℕ → List HfiDef → Option (List ℕ) → Option (Option ℕ)
get_pkt_index hfi_ver defs none = some none
get_pkt_index hfi_ver defs (some pkt) = elim (get_elem? pkt 1) [
  | none ↦ none
  | some t ↦ get_pkt_index_from_type hfi_ver defs t
]

-- `is_config_pkt`.
pub is_config_packet : ℕ → List HfiDef → Option (List ℕ) → Option Bool
is_config_packet hfi_ver defs pkt = elim (get_pkt_index hfi_ver defs pkt) [
  | none ↦ none
  | some none ↦ some false
  | some (some i) ↦ elim (get_elem? defs i) [ none ↦ none | some d ↦ some d.config_pkt ]
]

-- `get_pkt_fenceoverride`, which does not test the index.
pub get_pkt_fenceoverride : ℕ → List HfiDef → ℕ → Option Bool
get_pkt_fenceoverride hfi_ver defs t =
    let i = if hfi_ver == 1 then (t + u32_mod - cmd_session_start) % u32_mod else index_v2 t in
    elim (get_elem? defs i) [ none ↦ none | some d ↦ some d.force_kernel_fence ]

-- Which entry `get_pkt_name_from_type` names: one of the commands, one of the messages, or none.
pub data Named : Type 0 where
  command message : ℕ → Named
  unnamed outside : Named

abbrev table_entry : (ℕ → Named) → List HfiDef → ℕ → Named
table_entry f defs i = if ltb i (length defs) then f i else outside

-- The index of a message's type of the second version, as a word; -EINVAL where bit 13 is alone.
pub msg_index_v2 : ℕ → ℕ
msg_index_v2 t =
    let twelve = t / 4096 % 2 == 1 in
    let thirteen = t / 8192 % 2 == 1 in
    if twelve && thirteen
    then (t + u32_mod - 0x2203000 + 0x64) % u32_mod
    else if twelve && not thirteen
    then (t + u32_mod - 0x2201000 + 0x32) % u32_mod
    else if not twelve && not thirteen
    then (t + u32_mod - 0x2200000) % u32_mod
    else u32_mod - 22

unfoldable pub name_v2 : List HfiDef → List HfiDef → ℕ → Named
name_v2 defs msg_defs t =
    if t / 2 ^ 24 % 4 == 1
    then elim (get_pkt_index_from_type 2 defs t) [
      | none ↦ outside
      | some none ↦ unnamed
      | some (some i) ↦ if leb max_pkt_idx i then unnamed else table_entry command defs i
    ]
    else if t / 2 ^ 24 % 4 == 2
    then (if leb (2 ^ 31) (msg_index_v2 t) || leb max_pkt_idx (msg_index_v2 t)
        then unnamed
        else table_entry message msg_defs (msg_index_v2 t))
    else unnamed

-- `get_pkt_name_from_type`.
unfoldable pub get_pkt_name_from_type : ℕ → List HfiDef → List HfiDef → ℕ → Named
get_pkt_name_from_type hfi_ver defs msg_defs t =
    if not (hfi_ver == 1)
    then name_v2 defs msg_defs t
    else if ltb cmd_session_start t && leb t (cmd_session_start + max_pkt_idx)
    then table_entry command defs (t - cmd_session_start)
    else if ltb msg_session_start t && leb t (msg_session_start + max_pkt_idx)
    then table_entry message msg_defs (t - msg_session_start)
    else unnamed

-- The checks of `cvp_create_pkt_cmd_session_send` on the words of a packet.
unfoldable pub check_packet : ℕ → List HfiDef → PacketInst → List ℕ → Option Rc
check_packet hfi_ver defs i (size ∷ type ∷ session_id ∷ rest) =
    if ltb (max_hfi_pkt_size * 4) size
    then some (failed einval)
    else if not (session_id == i.sess_id)
    then some (failed einval)
    else elim (get_pkt_index_from_type hfi_ver defs type) [
      | none ↦ none
      | some none ↦ some (failed einval)
      | some (some k) ↦ elim (get_elem? defs k) [
        | none ↦ none
        | some d ↦ some (if d.type == type then success else failed einval)
      ]
    ]
check_packet hfi_ver defs i pkt = none

-- `cvp_create_pkt_cmd_session_send`.
pub create_session_send : ℕ → List HfiDef → Session → Option (List ℕ) → Option Rc
create_session_send hfi_ver defs (some (some i)) (some pkt) = check_packet hfi_ver defs i pkt
create_session_send hfi_ver defs s pkt = some (failed einval)

-- The loop of `cvp_add_hfi_crc` over `n` words, from word `idx` on: all but word 12 are added.
pub sum_words : List ℕ → ℕ → ℕ → ℕ → Option ℕ
sum_words pkt zero idx sum = some sum
sum_words pkt (suc n) idx sum = elim (idx == 12) [
  | true ↦ sum_words pkt n (idx + 1) sum
  | false ↦ elim (get_elem? pkt idx) [
    | none ↦ none
    | some w ↦ sum_words pkt n (idx + 1) (add64 sum w)
  ]
]

-- `cvp_add_hfi_crc` for a packet, given whether checksums are asked for. The checksum is stored in
-- the word 9, `reserved2`.
pub add_hfi_crc : Bool → List ℕ → Option (List ℕ)
add_hfi_crc crc_en pkt = if not crc_en then some pkt else elim (get_elem? pkt 0) [
  | none ↦ none
  | some size ↦ elim (sum_words pkt (size / 4) 0 0) [
    | none ↦ none
    | some sum ↦ if ltb 9 (length pkt) then some (set pkt 9 (sum % u32_mod)) else none
  ]
]

-- `iris_hfi_session_send` for a packet, given whether the session is one of the device's.
pub hfi_session_send :
    Bool → Bool → ℕ → List HfiDef → SessionPtr → List ℕ → Rc → Device → Option (Rc × Bool × Device)
hfi_session_send valid crc_en hfi_ver defs (on_device i) pkt resumed dev =
    if not valid then some (failed econnreset, false, dev) else elim (add_hfi_crc crc_en pkt) [
      | none ↦ none
      | some pkt' ↦ elim (create_session_send hfi_ver defs (some i) (some pkt')) [
        | none ↦ none
        | some rc ↦
            if is_success rc
            then write_code (cmdq_write resumed pkt' dev)
            else some (rc, false, dev)
      ]
    ]
hfi_session_send valid crc_en hfi_ver defs null pkt resumed dev = some (failed enodev, false, dev)
hfi_session_send valid crc_en hfi_ver defs no_device pkt resumed dev =
    some (failed enodev, false, dev)
