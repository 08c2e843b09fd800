-- ===== src/Dsp/Buffers/Memory.antt =====
-- The buffers that the DSP asks for, and the end of a process (msm/eva/msm_cvp_dsp.c, and
-- `cvp_allocate_dsp_bufs` of msm/eva/msm_cvp_buf.c).
use eva_driver.Prelude.{ℕ, Bool, false, not, ◌&&◌, ◌||◌, Option, none, some, List, [], ◌∷◌, ◌++◌}
use eva_driver.Prelude.Tests.{ltb, ◌==◌, if◌then◌else◌}
use eva_driver.Prelude.Words.{add32, sub32}
use eva_driver.Prelude.Errno.{Rc, success, failed, einval}
use eva_driver.Session.{is_success}
use eva_driver.Dsp.Buffers.{minus_one, client, dsp, DspBuf, Pool}

-- What an allocation meets: whether memory is granted for the buffer and for its mapping, the code of
-- the allocation, the size and the address that it got, and the code of the mapping for the DSP with
-- the address there.
pub record Allocation : Type 0 where
  pub granted : Bool
  pub smem_granted : Bool
  pub alloc : Rc
  pub smem_size : ℕ
  pub iova : ℕ
  pub map : Rc
  pub v_dsp_addr : ℕ

-- The code of `cvp_allocate_dsp_bufs` for a size and a kind of protection, and whether the buffer
-- has its mapping then: the code is 0 where memory for the mapping is short.
unfoldable pub allocate_dsp_bufs : Allocation → ℕ → ℕ → Rc × Bool
allocate_dsp_bufs a size secure_type =
    if size == 0 || ltb 2 secure_type
    then (failed einval, false)
    else if not a.smem_granted
    then (success, false)
    else (a.alloc, is_success a.alloc)

-- `__dsp_cvp_mem_alloc` for a process that was found: the code sent back. `none` is an access
-- through the mapping that the buffer does not have.
unfoldable pub mem_alloc : Allocation → ℕ → ℕ → Bool → Pool → Option (ℕ × Pool)
mem_alloc a size secure_type remote_map p =
    if not a.granted
    then some (minus_one, p)
    else let (rc, mapped) = allocate_dsp_bufs a size secure_type in
      if not (is_success rc)
      then some (minus_one, p)
      else if not mapped
      then none
      else if remote_map && not (is_success a.map)
      then some (minus_one, p)
      else some (
        0,
        record p {
          bufs =
              p.bufs
              ++ (record {
                fd = if remote_map then a.v_dsp_addr else 0;
                size = a.smem_size;
                smem_size = a.smem_size;
                iova = a.iova;
                owner = dsp;
              }
                  ∷ []);
          nr_maps = if remote_map then add32 p.nr_maps 1 else p.nr_maps;
          dsp_usage = add32 p.dsp_usage a.smem_size;
          smem_count = add32 p.smem_count 1;
        },
      )

-- The first buffer with the address and the descriptor.
unfoldable pub find_mem : ℕ → ℕ → List DspBuf → Option DspBuf
find_mem iova fd [] = none
find_mem iova fd (b ∷ bs) =
    let rest = find_mem iova fd bs in if b.iova == iova && b.fd == fd then some b else rest

unfoldable pub remove_mem : ℕ → ℕ → List DspBuf → List DspBuf
remove_mem iova fd [] = []
remove_mem iova fd (b ∷ bs) =
    let rest = remove_mem iova fd bs in if b.iova == iova && b.fd == fd then bs else b ∷ rest

-- `__dsp_cvp_mem_free` for a process that was found, given what unmapping for the DSP returns.
unfoldable pub mem_free : Rc → ℕ → ℕ → Pool → ℕ × Pool
mem_free unmap iova fd p = elim (find_mem iova fd p.bufs) [
  | none ↦ (0, p)
  | some b ↦ if not (b.fd == 0) && not (is_success unmap) then (minus_one, p) else (
    0,
    record p {
      bufs = remove_mem iova fd p.bufs;
      nr_maps = if b.fd == 0 || p.nr_maps == 0 then p.nr_maps else sub32 p.nr_maps 1;
      dsp_usage = sub32 p.dsp_usage b.size;
      smem_count = sub32 p.smem_count 1;
    },
  )
]

-- The loop of `eva_fastrpc_driver_unregister` over the buffers that are left, given what each
-- unmapping of a client's buffer returns.
unfoldable pub clear_bufs : List DspBuf → List Rc → Pool → Pool
clear_bufs [] us p = record p { bufs = [] }
clear_bufs (b ∷ bs) us p = elim b.owner [
  | dsp ↦ clear_bufs bs us (record p { dsp_usage = sub32 p.dsp_usage b.size })
  | client ↦ elim us [
    | [] ↦ clear_bufs bs [] p
    | u ∷ us' ↦ clear_bufs bs us' (
        if is_success u
        then record p { smem_count = sub32 p.smem_count 1; files = sub32 p.files 1 }
        else p)
  ]
]

pub clear_pool : List Rc → Pool → Pool
clear_pool us p = clear_bufs p.bufs us p
