-- ===== src/Packets/Layout.antt =====
-- The packets of the device layer's commands, word by word, in the layout of msm/eva/cvp_hfi_v1.h.
use eva_driver.Prelude.{ℕ, zero, suc, ◌/◌, ◌%◌, ◌^◌, ◌≡◌, ◌≢◌, refl, ap, subst, List, [], ◌∷◌}
use eva_driver.Prelude.Tests.{leb, if◌then◌else◌}
use eva_driver.Prelude.Lists.{length, get_or}
use eva_driver.Prelude.Words.{u32_mod}
use eva_driver.Packets.{UbwcConfig, get_hfi_ssr_type}
use eva_driver.Packets.Session.{PacketInst}
use eva_driver.Packets.Resource.{ResourceHdr}

-- A command of the device layer with a packet of a fixed length: its arguments, and for a packet on
-- the stack what the words held.
pub data Command : Type 0 where
  debug : ℕ → ℕ → Command
  idle_indicator coverage power_control : ℕ → Command
  ubwc : UbwcConfig → Command
  sys_init pc_prep : List ℕ → Command
  image_version : Command
  ssr : ℕ → List ℕ → Command
  session_cmd : ℕ → PacketInst → List ℕ → Command
  session_cmd_ktid : ℕ → ℕ → PacketInst → List ℕ → Command
  set_buffers : ℕ → ℕ → ℕ → PacketInst → List ℕ → Command
  release_buffers : ℕ → PacketInst → List ℕ → Command
  start_session : PacketInst → List ℕ → Command
  release_cache : (ℕ → ℕ) → ResourceHdr → List ℕ → Command

-- The packet on the stack has its type's size, a buffer that is set has an address and a size, and a
-- resource that is released is the cache.
unfoldable pub Fits : Command → Type 0
Fits (sys_init stack) = length stack ≡ 3
Fits (pc_prep stack) = length stack ≡ 2
Fits (ssr t stack) = length stack ≡ 3
Fits (session_cmd t i stack) = length stack ≡ 3
Fits (session_cmd_ktid t k i stack) = length stack ≡ 11
Fits (set_buffers k iova size i stack) = (length stack ≡ 21) × (iova ≢ 0) × (size ≢ 0)
Fits (release_buffers k i stack) = length stack ≡ 14
Fits (start_session i stack) = length stack ≡ 8
Fits (release_cache hash32_ptr hdr stack) = (length stack ≡ 5) × (hdr.resource_id ≡ 1)
Fits c = Unit

-- The packet of a command. A packet on the stack keeps what was there where nothing is assigned.
unfoldable pub layout : Command → List ℕ
layout (debug m d) = 24 ∷ 0x10005 ∷ 1 ∷ 1 ∷ d ∷ (if leb m 3 then m else 1) ∷ []
layout (idle_indicator e) = 20 ∷ 0x10005 ∷ 1 ∷ 4 ∷ e ∷ []
layout (coverage m) = 20 ∷ 0x10005 ∷ 1 ∷ 7 ∷ m ∷ []
layout (power_control e) = 20 ∷ 0x10005 ∷ 1 ∷ 5 ∷ e ∷ []
layout (ubwc u) =
    56
    ∷ 0x10005
    ∷ 1
    ∷ 8
    ∷ 40
    ∷ 0
    ∷ u.override_bit_info % 32
    ∷ u.max_channels
    ∷ u.mal_length
    ∷ u.highest_bank_bit
    ∷ u.bank_swzl_level
    ∷ u.bank_spreading
    ∷ 0
    ∷ 0
    ∷ []
layout (sys_init stack) = 12 ∷ 0x10001 ∷ 0 ∷ []
layout (pc_prep stack) = 8 ∷ 0x10002 ∷ []
layout image_version = 16 ∷ 0x10006 ∷ 1 ∷ 6 ∷ []
layout (ssr t stack) = 12 ∷ 0x10101 ∷ get_hfi_ssr_type t ∷ []
layout (session_cmd t i stack) = 12 ∷ t ∷ i.sess_id ∷ []
layout (session_cmd_ktid t k i stack) =
    44
    ∷ t
    ∷ i.sess_id
    ∷ get_or stack 3 0
    ∷ get_or stack 4 0
    ∷ get_or stack 5 0
    ∷ k % u32_mod
    ∷ k / u32_mod % u32_mod
    ∷ get_or stack 8 0
    ∷ get_or stack 9 0
    ∷ get_or stack 10 0
    ∷ []
layout (set_buffers k iova size i stack) =
    84
    ∷ 0x4011001
    ∷ i.sess_id
    ∷ get_or stack 3 0
    ∷ get_or stack 4 0
    ∷ get_or stack 5 0
    ∷ k % 2 ^ 63 % u32_mod
    ∷ k % 2 ^ 63 / u32_mod % u32_mod
    ∷ get_or stack 8 0
    ∷ get_or stack 9 0
    ∷ iova
    ∷ size
    ∷ get_or stack 12 0
    ∷ get_or stack 13 0
    ∷ get_or stack 14 0
    ∷ get_or stack 15 0
    ∷ get_or stack 16 0
    ∷ get_or stack 17 0
    ∷ get_or stack 18 0
    ∷ get_or stack 19 0
    ∷ get_or stack 20 0
    ∷ []
layout (release_buffers k i stack) =
    56
    ∷ 0x4011002
    ∷ i.sess_id
    ∷ get_or stack 3 0
    ∷ get_or stack 4 0
    ∷ get_or stack 5 0
    ∷ k % 2 ^ 63 % u32_mod
    ∷ k % 2 ^ 63 / u32_mod % u32_mod
    ∷ get_or stack 8 0
    ∷ get_or stack 9 0
    ∷ get_or stack 10 0
    ∷ 0
    ∷ 1
    ∷ get_or stack 13 0
    ∷ []
layout (start_session i stack) =
    32 ∷ 0x10007 ∷ i.sess_id ∷ i.type ∷ i.kernel_mask ∷ i.priority ∷ i.is_secure ∷ i.dsp_mask ∷ []
layout (release_cache hash32_ptr hdr stack) =
    20 ∷ 0x10004 ∷ 2 ∷ hash32_ptr hdr.resource_handle ∷ get_or stack 4 0 ∷ []

abbrev tabulate : ℕ → (ℕ → ℕ) → List ℕ
tabulate zero f = []
tabulate (suc n) f = f 0 ∷ tabulate n (λ i. f (suc i))

tabulate_lem : (xs : List ℕ) → xs ≡ tabulate (length xs) (λ i. get_or xs i 0)
tabulate_lem [] = refl
tabulate_lem (x ∷ xs) = ap (λ ys. x ∷ ys) (tabulate_lem xs)

-- A list of so many words is those words.
pub spread : (n : ℕ) (xs : List ℕ) → length xs ≡ n → xs ≡ tabulate n (λ i. get_or xs i 0)
spread n xs e = subst (λ k. xs ≡ tabulate k (λ i. get_or xs i 0)) e (tabulate_lem xs)
