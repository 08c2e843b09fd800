-- ===== src/Dsp/Buffers.antt =====
-- The buffers of a process on the DSP (msm/eva/msm_cvp_dsp.c): those of its clients, which its
-- sessions register. Those that it asks for are in Dsp/Buffers/Memory. What the kernel and the DSP
-- answer is an argument.
pub mod Memory
use eva_driver.Prelude.{
  ℕ, ◌+◌, Bool, true, false, not, ◌&&◌, ◌||◌, Option, none, some, List, [], ◌∷◌, ◌++◌,
}
use eva_driver.Prelude.Tests.{ltb, ◌==◌, if◌then◌else◌}
use eva_driver.Prelude.Words.{add32, sub32}
use eva_driver.Prelude.Errno.{Rc, success, failed, einval, enomem}
use eva_driver.Session.{is_success}

-- The code -1 of an answer, as a word.
abbrev pub minus_one : ℕ
minus_one = 0xFFFFFFFF

-- Who owns a buffer: `enum buffer_owner`.
pub data Owner : Type 0 where
  client dsp : Owner

-- `struct cvp_internal_buf`, with its size in memory and its address for the device. A descriptor
-- of 0 is that of a buffer which is not mapped for the DSP.
pub record DspBuf : Type 0 where
  pub fd : ℕ
  pub size : ℕ
  pub smem_size : ℕ
  pub iova : ℕ
  pub owner : Owner

-- What `struct cvp_dsp_fastrpc_driver_entry` keeps of the buffers, the references to files that
-- are held for them, and the count of the maps of all processes. The counters are 32-bit words.
pub record Pool : Type 0 where
  pub bufs : List DspBuf
  pub smem_count : ℕ
  pub dsp_usage : ℕ
  pub files : ℕ
  pub nr_maps : ℕ

-- A buffer of a client: `struct eva_kmd_buffer`.
pub record KmdBuf : Type 0 where
  pub fd : ℕ
  pub size : ℕ
  pub offset : ℕ

unfoldable pub find_buf : ℕ → List DspBuf → Option DspBuf
find_buf fd [] = none
find_buf fd (b ∷ bs) = let rest = find_buf fd bs in if b.fd == fd then some b else rest

unfoldable pub remove_buf : ℕ → List DspBuf → List DspBuf
remove_buf fd [] = []
remove_buf fd (b ∷ bs) = let rest = remove_buf fd bs in if b.fd == fd then bs else b ∷ rest

-- `__is_buf_valid`: a buffer with the descriptor is refused, whatever its size.
unfoldable pub is_buf_valid : KmdBuf → Pool → Bool
is_buf_valid k p =
    if not (k.offset == 0)
    then false
    else elim (find_buf k.fd p.bufs) [ none ↦ true | some b ↦ false ]

-- What mapping a client's buffer meets: whether the session has its task, whether the descriptor
-- names a file, the size of its buffer if it is one, whether memory is granted for the two
-- structures, the code of the mapping with the address that it gives, and the code of its undoing.
pub record Mapping : Type 0 where
  pub has_task : Bool
  pub file : Bool
  pub dma_size : Option ℕ
  pub granted : Bool
  pub smem_granted : Bool
  pub map : Rc
  pub iova : ℕ
  pub unmap : Rc

-- The address of a structure behind `msm_cvp_map_smem`: it is 0 where that fails.
abbrev pub mapped_addr : Mapping → ℕ
mapped_addr m = if is_success m.map then m.iova else 0

-- `exit` behind the mapping: a structure that has an address is unmapped, and the code is that of
-- the unmapping then.
abbrev pub undo_map : Mapping → Rc
undo_map m = if mapped_addr m == 0 then m.map else m.unmap

-- `msm_cvp_map_buf_dsp` for a session of the process: the code, the address and the size that the
-- client gets, and the buffers.
unfoldable pub map_buf_dsp : Mapping → KmdBuf → Pool → Rc × ℕ × ℕ × Pool
map_buf_dsp m k p =
    if not m.has_task || not (is_buf_valid k p) || not m.file
    then (failed einval, 0, k.size, p)
    else elim m.dma_size [
      | none ↦ (failed einval, 0, k.size, p)
      | some n ↦
          if ltb n k.size
          then (failed einval, 0, k.size, p)
          else if not m.granted || not m.smem_granted
          then (failed enomem, 0, k.size, p)
          else if not (is_success m.map)
          then (undo_map m, 0, k.size, p)
          else (
            success,
            m.iova,
            n,
            record p {
              bufs =
                  p.bufs
                  ++ (record {
                    fd = k.fd;
                    size = k.size;
                    smem_size = n;
                    iova = m.iova;
                    owner = client;
                  }
                      ∷ []);
              files = p.files + 1;
            },
          )
    ]

-- `msm_cvp_unmap_buf_dsp`, given what the unmapping returns. The list of the last unused buffers is
-- left out.
unfoldable pub unmap_buf_dsp : Rc → KmdBuf → Pool → Rc × Pool
unmap_buf_dsp unmap k p = elim (find_buf k.fd p.bufs) [
  | none ↦ (failed einval, p)
  | some b ↦
      let p' = record p { bufs = remove_buf k.fd p.bufs } in
      if b.iova == 0
      then (success, p')
      else (unmap, if is_success unmap then record p' { files = sub32 p.files 1 } else p')
]

-- `__dsp_cvp_buf_register` for a session and a process that were found and a buffer with an index:
-- the code sent back, and the address and the size. The command names the process on its own; the
-- pool stands for it and for the session's process, which are one here.
unfoldable pub buf_register : Bool → Mapping → KmdBuf → Pool → ℕ × ℕ × ℕ × Pool
buf_register granted m k p =
    if not granted
    then (minus_one, 0, 0, p)
    else let (rc, iova, size, p') = map_buf_dsp m k p in
      if is_success rc
      then (
        0,
        iova,
        size,
        record p' { dsp_usage = add32 p'.dsp_usage size; smem_count = add32 p'.smem_count 1 },
      )
      else (minus_one, 0, 0, p')

-- `__dsp_cvp_buf_deregister`.
unfoldable pub buf_deregister : Bool → Rc → KmdBuf → Pool → ℕ × Pool
buf_deregister granted unmap k p =
    if not granted
    then (minus_one, p)
    else let (rc, p') = unmap_buf_dsp unmap k p in
      if is_success rc
      then (
        0,
        record p' { dsp_usage = sub32 p'.dsp_usage k.size; smem_count = sub32 p'.smem_count 1 },
      )
      else (minus_one, p')
