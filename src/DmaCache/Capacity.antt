-- ===== src/DmaCache/Capacity.antt =====
-- The counter and the limit of the cache of mappings (msm/eva/msm_cvp_buf.c).
use eva_driver.Prelude.{
  ℕ, suc, ◌+◌, ◌≤◌, ◌<◌, ◌≡◌, refl, Bool, inl, inr, Option, some, List, [], ◌∷◌, arith,
}
use eva_driver.Prelude.Tests.{Option-cases}
use eva_driver.Prelude.Lists.{length}
use eva_driver.DmaCache.{
  Smem, Cache, BufType, find_smem, update, insert_smem, inc_ref, dec_ref, session_find_smem, in_use,
  count_unused, free_unused_mapping, add_smem_rb_node, session_add_smem, put_smem, session_get_smem,
  release_loose, unmap_frame_buf,
}

-- The counter is the number of cached mappings, and within the capacity, which is at most 256.
pub record IsBounded (c : Cache) : Type 0 where
  pub counted : c.nr ≡ length c.tree
  pub within : c.nr ≤ c.max_capacity
  pub limited : c.max_capacity ≤ 256

length-update : (d : ℕ) (f : Smem → Smem) (ss : List Smem) → length (update d f ss) ≡ length ss
unfolding update
length-update d f [] = refl
length-update d f (s ∷ ss) = ground (arith, length-update d f ss)

length-insert_smem : (s : Smem) (ss : List Smem) → length (insert_smem s ss) ≡ suc (length ss)
unfolding insert_smem
length-insert_smem s [] = refl
length-insert_smem s (t ∷ ts) = ground (arith, length-insert_smem s ts)

length-in_use : (ss : List Smem) → length (in_use ss) + count_unused ss ≡ length ss
unfolding in_use count_unused
length-in_use [] = refl
length-in_use (s ∷ ss) = ground (arith, length-in_use ss)

add_smem_rb_node-IsBounded :
    (s : Smem) (c : Cache) → IsBounded c → c.nr < c.max_capacity → IsBounded (add_smem_rb_node s c)
unfolding add_smem_rb_node
add_smem_rb_node-IsBounded s c b room =
    omega (arith, b.counted, b.within, b.limited, length-insert_smem s c.tree)

free_unused_mapping-IsBounded :
    (unmaps : ℕ → Bool) (c : Cache)
    → IsBounded c
    → let (freed, c') = free_unused_mapping unmaps c in
      IsBounded c' × (c'.nr + freed ≡ c.nr) × (c'.max_capacity ≡ c.max_capacity)
unfolding free_unused_mapping
free_unused_mapping-IsBounded unmaps c b =
    omega (arith, b.counted, b.within, b.limited, length-in_use c.tree)

session_add_smem-IsBounded :
    (unmaps : ℕ → Bool) (s : Smem) (c : Cache)
    → IsBounded c
    → IsBounded (session_add_smem unmaps s c).1
unfolding session_add_smem
session_add_smem-IsBounded unmaps s c b = ground (
  arith,
  b.counted,
  b.within,
  b.limited,
  length-in_use c.tree,
  length-insert_smem (inc_ref s) c.tree,
  length-insert_smem (inc_ref s) (in_use c.tree),
)

session_find_smem-IsBounded :
    (d pkt_type : ℕ) (c : Cache) {s : Smem} {c' : Cache}
    → IsBounded c
    → session_find_smem d pkt_type c ≡ some (s, c')
    → IsBounded c'
unfolding session_find_smem
session_find_smem-IsBounded d pkt_type c {s} {c'} b e = elim (Option-cases (find_smem d c.tree)) [
  | inl q ↦ ground (arith, q, b.counted, b.within, b.limited)
  | inr (t, q) ↦ ground (
    arith,
    q,
    b.counted,
    b.within,
    b.limited,
    length-update d (λ (u : Smem). record (inc_ref u) { pkt_type = pkt_type }) c.tree,
  )
]

put_smem-IsBounded : (d : ℕ) (c : Cache) → IsBounded c → IsBounded (put_smem d c)
unfolding put_smem
put_smem-IsBounded d c b =
    ground (arith, b.counted, b.within, b.limited, length-update d dec_ref c.tree)

-- A buffer that is asked for, whether it is found, mapped, or refused.
pub session_get_smem-IsBounded :
    (unmaps : ℕ → Bool) (mapped : Option Smem) (d pkt_type : ℕ) (buf : BufType) (c : Cache)
    → IsBounded c
    → IsBounded (session_get_smem unmaps mapped d pkt_type buf c).1
unfolding session_get_smem
session_get_smem-IsBounded unmaps mapped d pkt_type buf c b =
    elim (Option-cases (session_find_smem d pkt_type c)) [
      | inl q ↦ elim (Option-cases mapped) [
        | inl m ↦ ground (arith, q, m, b)
        | inr (s, m) ↦ ground (arith, q, m, b, session_add_smem-IsBounded unmaps s c b)
      ]
      | inr ((s, c'), q) ↦
          let b' = session_find_smem-IsBounded d pkt_type c b q in
          ground (arith, q, b', put_smem-IsBounded d c' b')
    ]

-- The end of a frame.
pub unmap_frame_buf-IsBounded :
    (ds : List ℕ) (c : Cache) → IsBounded c → IsBounded (unmap_frame_buf ds c)
unfolding unmap_frame_buf
unmap_frame_buf-IsBounded [] c b = b
unmap_frame_buf-IsBounded (d ∷ ds) c b = elim (Option-cases (find_smem d c.tree)) [
  | inl q ↦ rw q (
      unmap_frame_buf-IsBounded ds (record c { loose = release_loose d c.loose })
        (record { counted = b.counted; within = b.within; limited = b.limited }))
  | inr (s, q) ↦ rw q (
      unmap_frame_buf-IsBounded ds (record c { tree = update d dec_ref c.tree })
        (record {
          counted = omega (arith, b.counted, length-update d dec_ref c.tree);
          within = b.within;
          limited = b.limited;
        }))
]

-- What frames do to the cache: they ask for a buffer, given whether that can be mapped and which
-- mappings can be unmapped, or they end.
pub data Request : Type 0 where
  ask : (ℕ → Bool) → Option Smem → ℕ → ℕ → BufType → Request
  end_frame : List ℕ → Request

pub serve : List Request → Cache → Cache
serve [] c = c
serve (ask unmaps mapped d pkt_type buf ∷ rs) c =
    serve rs (session_get_smem unmaps mapped d pkt_type buf c).1
serve (end_frame ds ∷ rs) c = serve rs (unmap_frame_buf ds c)

-- Over any sequence of buffers that are asked for, whether they are found, mapped, or refused, and of
-- frames that end, the cache's counter stays equal to the number of its mappings, and within the
-- capacity, which stays at most 256.
pub serve-IsBounded : (rs : List Request) (c : Cache) → IsBounded c → IsBounded (serve rs c)
unfolding serve
serve-IsBounded [] c b = b
serve-IsBounded (ask unmaps mapped d pkt_type buf ∷ rs) c b =
    serve-IsBounded rs (session_get_smem unmaps mapped d pkt_type buf c).1
      (session_get_smem-IsBounded unmaps mapped d pkt_type buf c b)
serve-IsBounded (end_frame ds ∷ rs) c b =
    serve-IsBounded rs (unmap_frame_buf ds c) (unmap_frame_buf-IsBounded ds c b)
