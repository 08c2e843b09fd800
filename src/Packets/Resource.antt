-- ===== src/Packets/Resource.antt =====
-- The packets that set and release a resource of the firmware (msm/eva/hfi_packetization.c). The
-- kernel's hash of a pointer is an argument.
use eva_driver.Prelude.{ℕ, zero, suc, ◌+◌, ◌*◌, ◌%◌, Option, none, some, List, [], ◌∷◌, ◌++◌}
use eva_driver.Prelude.Tests.{◌==◌, if◌then◌else◌}
use eva_driver.Prelude.Lists.{get_elem?}
use eva_driver.Prelude.Words.{add32, u32_mod}
use eva_driver.Prelude.Errno.{success, failed, enotsupp}
use eva_driver.Packets.{
  Made, stores, fill, invalid, cmd_sys_set_resource, cmd_sys_release_resource, resource_syscache,
}

-- `struct cvp_resource_hdr`; a cache is the resource with the number 1.
pub record ResourceHdr : Type 0 where
  pub resource_id : ℕ
  pub resource_handle : ℕ

-- `struct cvp_hfi_resource_syscache_info_type`: an entry is its target and its number.
pub record SyscacheInfo : Type 0 where
  pub num_entries : ℕ
  pub entries : List (ℕ × ℕ)

-- The loop over the entries, from entry `i` on. A read outside the array is `none` too.
unfoldable pub copy_entries : List (ℕ × ℕ) → ℕ → ℕ → List ℕ → Option (List ℕ)
copy_entries entries i zero buf = some buf
copy_entries entries i (suc k) buf = elim (get_elem? entries i) [
  | none ↦ none
  | some (target_hw, sc_id) ↦ elim (stores buf ((5 + 2 * i, target_hw) ∷ (6 + 2 * i, sc_id) ∷ [])) [
    | none ↦ none
    | some b ↦ copy_entries entries (i + 1) k b
  ]
]

abbrev pub set_resource_fields : (ℕ → ℕ) → ResourceHdr → List (ℕ × ℕ)
set_resource_fields hash32_ptr hdr =
    (1, cmd_sys_set_resource) ∷ (0, 20) ∷ (2, hash32_ptr hdr.resource_handle) ∷ []

abbrev pub syscache_fields : SyscacheInfo → List (ℕ × ℕ)
syscache_fields info =
    (3, resource_syscache)
    ∷ (4, info.num_entries)
    ∷ (0, add32 20 (8 * info.num_entries % u32_mod))
    ∷ []

-- The case of a cache.
unfoldable pub set_syscache : (ℕ → ℕ) → ResourceHdr → SyscacheInfo → List ℕ → Option Made
set_syscache hash32_ptr hdr info buf =
    elim (stores buf (set_resource_fields hash32_ptr hdr ++ syscache_fields info)) [
      | none ↦ none
      | some b ↦ elim (copy_entries info.entries 0 info.num_entries b) [
        | none ↦ none
        | some b' ↦ some (record { rc = success; pkt = some b' })
      ]
    ]

-- `cvp_create_pkt_cmd_sys_set_resource`.
unfoldable pub sys_set_resource :
    (ℕ → ℕ) → Option ResourceHdr → Option SyscacheInfo → Option (List ℕ) → Option Made
sys_set_resource hash32_ptr (some hdr) (some info) (some buf) =
    if hdr.resource_id == 1
    then set_syscache hash32_ptr hdr info buf
    else fill (failed enotsupp) (set_resource_fields hash32_ptr hdr) buf
sys_set_resource hash32_ptr (some hdr) (some info) none = invalid none
sys_set_resource hash32_ptr (some hdr) none pkt = invalid pkt
sys_set_resource hash32_ptr none info pkt = invalid pkt

-- `cvp_create_pkt_cmd_sys_release_resource`.
abbrev pub release_resource_fields : (ℕ → ℕ) → ResourceHdr → List (ℕ × ℕ)
release_resource_fields hash32_ptr hdr =
    (0, 20) ∷ (1, cmd_sys_release_resource) ∷ (3, hash32_ptr hdr.resource_handle) ∷ []

unfoldable pub sys_release_resource : (ℕ → ℕ) → Option ResourceHdr → Option (List ℕ) → Option Made
sys_release_resource hash32_ptr (some hdr) (some buf) =
    if hdr.resource_id == 1
    then fill success (release_resource_fields hash32_ptr hdr ++ ((2, resource_syscache) ∷ [])) buf
    else fill (failed enotsupp) (release_resource_fields hash32_ptr hdr) buf
sys_release_resource hash32_ptr (some hdr) none = invalid none
sys_release_resource hash32_ptr none pkt = invalid pkt
