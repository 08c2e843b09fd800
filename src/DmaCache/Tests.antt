-- ===== src/DmaCache/Tests.antt =====
-- The cache of mappings, and the theorems about it, at concrete inputs.
use eva_driver.Prelude.{ℕ, ◌+◌, ◌*◌, ◌≡◌, refl, true, some, [], ◌∷◌, arith}
use eva_driver.DmaCache.{
  Smem, Cache, BufType, find_smem, is_cvp_buf_valid, session_get_smem, map_frame_buf,
  session_find_smem,
}
use eva_driver.DmaCache.Capacity.{IsBounded, ask, end_frame, serve, serve-IsBounded}
use eva_driver.DmaCache.Refs.{session_get_smem-keeps}

abbrev smem : ℕ → ℕ → Smem
smem d refcount = record {
  dma_buf = d;
  refcount = refcount;
  size = 4096;
  device_addr = d * 4096;
  pkt_type = 1;
}

abbrev cache : Cache
cache = record {
  tree = smem 3 0 ∷ smem 5 2 ∷ [];
  loose = [];
  nr = 2;
  max_capacity = 128;
  va_inst_watermark = 8192;
  va_watermark = 8192;
}

abbrev buf : BufType
buf = record { size = 1024; offset = 512 }

cache-IsBounded : IsBounded cache
cache-IsBounded = omega arith

-- A buffer that is not in the cache is mapped, and its device address is that of the offset.
mapped : (map_frame_buf (λ d. true) (some (smem 4 0)) 4 1 buf (5 ∷ []) cache).0 ≡ 4 * 4096 + 512
unfolding map_frame_buf session_get_smem session_find_smem find_smem is_cvp_buf_valid
mapped = refl

-- The offset is far behind the end of the mapping.
beyond : is_cvp_buf_valid (record { size = 1024; offset = 65536 }) 4096 ≡ true
unfolding is_cvp_buf_valid
beyond = refl

-- The cache is full, and the unused mapping of buffer 3 is freed.
session_get_smem-keeps_example :
    let full = record cache { max_capacity = 2 } in
    let (found, c') = session_get_smem (λ d. true) (some (smem 4 0)) 4 1 buf full in
    find_smem 5 c'.tree ≡ some (smem 5 2)
unfolding find_smem
session_get_smem-keeps_example =
    session_get_smem-keeps (λ d. true) (smem 4 0) 4 1 buf (record cache { max_capacity = 2 }) 5
      (smem 5 2) refl (omega arith) refl (omega arith)

serve-IsBounded_example :
    IsBounded
      (serve (ask (λ d. true) (some (smem 4 0)) 4 1 buf ∷ end_frame (5 ∷ 5 ∷ []) ∷ []) cache)
serve-IsBounded_example =
    serve-IsBounded (ask (λ d. true) (some (smem 4 0)) 4 1 buf ∷ end_frame (5 ∷ 5 ∷ []) ∷ []) cache
      cache-IsBounded
