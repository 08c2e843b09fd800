-- ===== src/DmaCache.antt =====
-- The cache of a session's DMA mappings, and the mapping of a frame's buffers (msm/eva/msm_cvp_buf.c,
-- msm/eva/msm_cvp_buf.h). The red-black tree is its list of entries in order; the persistent buffers
-- have mappings of their own and are left out, and so are locks, log lines, the cache operations of
-- the CPU and the debugging aid that makes a faulty address. A mapping that a full cache leaves to a
-- frame is looked up from then on; the driver looks it up once its frame is in the session's list.
mod Capacity
mod Refs
mod Valid
mod Tests
use eva_driver.Prelude.{
  ℕ, suc, ◌+◌, ◌-◌, ◌%◌, Bool, true, false, not, ◌&&◌, ◌||◌, Option, none, some, List, [], ◌∷◌,
  ◌++◌,
}
use eva_driver.Prelude.Tests.{ltb, leb, ◌==◌, if◌then◌else◌}
use eva_driver.Prelude.Lists.{length}
use eva_driver.Prelude.Words.{u32_mod, add32, sub32}
use eva_driver.Prelude.Errno.{Rc, success, failed, enomem}

-- `struct msm_cvp_smem`: the buffer's address, its references, its size and device address.
pub record Smem : Type 0 where
  pub dma_buf : ℕ
  pub refcount : ℕ
  pub size : ℕ
  pub device_addr : ℕ
  pub pkt_type : ℕ

-- `struct cvp_dmamap_cache`, with the mappings that a full cache leaves to the frames, and the two
-- watermarks.
pub record Cache : Type 0 where
  pub tree : List Smem
  pub loose : List Smem
  pub nr : ℕ
  pub max_capacity : ℕ
  pub va_inst_watermark : ℕ
  pub va_watermark : ℕ

-- `INIT_DMAMAP_CACHE`, for a core watermark.
pub init_cache : ℕ → Cache
init_cache core = record {
  tree = [];
  loose = [];
  nr = 0;
  max_capacity = 128;
  va_inst_watermark = 0;
  va_watermark = core;
}

-- `find_smem_rb_node`.
pub find_smem : ℕ → List Smem → Option Smem
find_smem d [] = none
find_smem d (s ∷ ss) = elim (d == s.dma_buf) [ true ↦ some s | false ↦ find_smem d ss ]

-- A change of the entry of one buffer, in place.
pub update : ℕ → (Smem → Smem) → List Smem → List Smem
update d f [] = []
update d f (s ∷ ss) = elim (d == s.dma_buf) [ true ↦ f s ∷ ss | false ↦ s ∷ update d f ss ]

-- Insertion at the bottom of the tree: behind every entry that is not larger.
pub insert_smem : Smem → List Smem → List Smem
insert_smem s [] = s ∷ []
insert_smem s (t ∷ ts) = elim (ltb s.dma_buf t.dma_buf) [
  | true ↦ s ∷ t ∷ ts
  | false ↦ t ∷ insert_smem s ts
]

abbrev pub inc_ref : Smem → Smem
inc_ref s = record s { refcount = s.refcount + 1 }

abbrev pub dec_ref : Smem → Smem
dec_ref s = record s { refcount = s.refcount - 1 }

-- `msm_cvp_session_find_smem`: the mapping found, with one more reference. The pointers in the
-- frames are those of the entries in `loose`.
pub session_find_smem : ℕ → ℕ → Cache → Option (Smem × Cache)
session_find_smem d pkt_type c = elim (find_smem d c.tree) [
  | some s ↦
      let use_it = λ (t : Smem). record (inc_ref t) { pkt_type = pkt_type } in
      some (use_it s, record c { tree = update d use_it c.tree })
  | none ↦ elim (find_smem d c.loose) [
    | some s ↦ some (inc_ref s, record c { loose = update d inc_ref c.loose })
    | none ↦ none
  ]
]

-- The mappings that are in use, and the sizes of those unused ones that could be unmapped.
pub in_use : List Smem → List Smem
in_use [] = []
in_use (s ∷ ss) = if s.refcount == 0 then in_use ss else s ∷ in_use ss

pub unmapped_size : (ℕ → Bool) → List Smem → ℕ
unmapped_size unmaps [] = 0
unmapped_size unmaps (s ∷ ss) =
    if s.refcount == 0 && unmaps s.dma_buf
    then s.size + unmapped_size unmaps ss
    else unmapped_size unmaps ss

pub count_unused : List Smem → ℕ
count_unused [] = 0
count_unused (s ∷ ss) = if s.refcount == 0 then suc (count_unused ss) else count_unused ss

-- `msm_cvp_free_unused_mapping`, given which mappings `msm_cvp_unmap_smem` unmaps: one that it
-- does not is dropped too, but stays in the watermarks.
pub free_unused_mapping : (ℕ → Bool) → Cache → ℕ × Cache
free_unused_mapping unmaps c = (
  count_unused c.tree,
  record c {
    tree = in_use c.tree;
    nr = sub32 c.nr (count_unused c.tree);
    va_inst_watermark = sub32 c.va_inst_watermark (unmapped_size unmaps c.tree % u32_mod);
    va_watermark = sub32 c.va_watermark (unmapped_size unmaps c.tree % u32_mod);
  },
)

-- `msm_cvp_add_smem_rb_node`.
pub add_smem_rb_node : Smem → Cache → Cache
add_smem_rb_node s c = record c {
  tree = insert_smem s c.tree;
  nr = add32 c.nr 1;
  va_inst_watermark = add32 c.va_inst_watermark s.size;
  va_watermark = add32 c.va_watermark s.size;
}

-- `msm_cvp_session_add_smem`, whose caller keeps the mapping also if it gets -ENOMEM. The entry gets
-- its reference behind the insertion, of the same object. The scheduling of the cleanup is left out.
pub session_add_smem : (ℕ → Bool) → Smem → Cache → Rc × Cache
unfolding free_unused_mapping add_smem_rb_node
session_add_smem unmaps s c =
    if ltb c.nr c.max_capacity
    then (success, add_smem_rb_node (inc_ref s) c)
    else let (freed, c') = free_unused_mapping unmaps c in
      let c'' = record c' {
        max_capacity = if ltb c.max_capacity 256 then 256 else c.max_capacity;
      } in
      if freed == 0
      then (failed enomem, record c'' { loose = inc_ref s ∷ c''.loose })
      else (success, add_smem_rb_node (inc_ref s) c'')

-- A buffer of a command: `struct cvp_buf_type`, of which every number is a `u32`.
pub record BufType : Type 0 where
  pub size : ℕ
  pub offset : ℕ

-- `IS_CVP_BUF_VALID`.
pub is_cvp_buf_valid : BufType → ℕ → Bool
is_cvp_buf_valid buf smem_size = leb buf.size smem_size && leb buf.size (sub32 smem_size buf.offset)

-- `atomic_dec` on the mapping that was found.
pub put_smem : ℕ → Cache → Cache
put_smem d c = elim (find_smem d c.tree) [
  | some s ↦ record c { tree = update d dec_ref c.tree }
  | none ↦ record c { loose = update d dec_ref c.loose }
]

-- `msm_cvp_session_get_smem` for a buffer that is not persistent and whose `dma_buf` was found: given
-- the new mapping, with no reference, if memory and `msm_cvp_map_smem` give one.
pub session_get_smem : (ℕ → Bool) → Option Smem → ℕ → ℕ → BufType → Cache → Option Smem × Cache
session_get_smem unmaps mapped d pkt_type buf c = elim (session_find_smem d pkt_type c) [
  | some (s, c') ↦ if is_cvp_buf_valid buf s.size then (some s, c') else (none, put_smem d c')
  | none ↦ elim mapped [
    | none ↦ (none, c)
    | some s ↦
        if is_cvp_buf_valid buf s.size
        then (some (inc_ref s), (session_add_smem unmaps s c).1)
        else (none, c)
  ]
]

-- `atomic_dec_and_test` on a mapping of a frame that is not cached: the last reference unmaps it.
pub release_loose : ℕ → List Smem → List Smem
release_loose d [] = []
release_loose d (s ∷ ss) = elim (d == s.dma_buf) [
  | true ↦ if s.refcount == 1 then ss else dec_ref s ∷ ss
  | false ↦ s ∷ release_loose d ss
]

-- `msm_cvp_unmap_frame_buf`, for the buffers of a frame.
pub unmap_frame_buf : List ℕ → Cache → Cache
unmap_frame_buf [] c = c
unmap_frame_buf (d ∷ ds) c = unmap_frame_buf ds (elim (find_smem d c.tree) [
  | some s ↦ record c { tree = update d dec_ref c.tree }
  | none ↦ record c { loose = release_loose d c.loose }
])

abbrev pub max_frame_buffer_nums : ℕ
max_frame_buffer_nums = 40

-- `msm_cvp_map_frame_buf`: the device address, or 0, with the buffers of the frame and the cache.
pub map_frame_buf : (ℕ → Bool) → Option Smem → ℕ → ℕ → BufType → List ℕ → Cache → ℕ × List ℕ × Cache
map_frame_buf unmaps mapped d pkt_type buf bufs c =
    if length bufs == max_frame_buffer_nums
    then (0, bufs, c)
    else let (found, c') = session_get_smem unmaps mapped d pkt_type buf c in
      elim found [
        | none ↦ (0, bufs, c')
        | some s ↦ (add32 s.device_addr buf.offset, bufs ++ (d ∷ []), c')
      ]
