-- ===== src/DmaCache/Valid.antt =====
-- Which buffers of a mapping `IS_CVP_BUF_VALID` (msm/eva/msm_cvp_buf.h) accepts.
use eva_driver.Prelude.{ℕ, ◌+◌, ◌≤◌, ◌<◌, ◌≡◌, ◌↔◌, true, arith}
use eva_driver.Prelude.Words.{u32_mod}
use eva_driver.DmaCache.{BufType, is_cvp_buf_valid}

-- The test accepts exactly the buffers that are no larger than the mapping and that, if their offset
-- lies in the mapping, lie in it as a whole. A buffer whose offset is beyond the mapping is accepted,
-- since the difference wraps.
pub is_cvp_buf_valid_lem :
    (buf : BufType) (smem_size : ℕ)
    → buf.offset < u32_mod
    → smem_size < u32_mod
    → (is_cvp_buf_valid buf smem_size ≡ true)
      ↔ ((buf.size ≤ smem_size) × (buf.offset ≤ smem_size → buf.offset + buf.size ≤ smem_size))
unfolding is_cvp_buf_valid
is_cvp_buf_valid_lem buf smem_size o s = ground arith
