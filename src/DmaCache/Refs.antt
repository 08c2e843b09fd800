-- ===== src/DmaCache/Refs.antt =====
-- Which mappings stay, and with how many references (msm/eva/msm_cvp_buf.c).
use eva_driver.Prelude.{
  ℕ, ◌+◌, ◌-◌, ◌≡◌, ◌≢◌, refl, sym, ◌∙◌, ap, Bool, true, inl, inr, Option, some, List, [], ◌∷◌,
  arith,
}
use eva_driver.Prelude.Tests.{◌==◌, Bool-cases, Option-cases}
use eva_driver.DmaCache.{
  Smem, Cache, BufType, find_smem, update, insert_smem, inc_ref, dec_ref, session_find_smem, in_use,
  session_add_smem, is_cvp_buf_valid, put_smem, session_get_smem, unmap_frame_buf,
}

find_smem-update_other :
    (d e : ℕ) (f : Smem → Smem) (ss : List Smem)
    → ((s : Smem) → (f s).dma_buf ≡ s.dma_buf)
    → d ≢ e
    → find_smem e (update d f ss) ≡ find_smem e ss
unfolding find_smem update
find_smem-update_other d e f [] keeps ne = refl
find_smem-update_other d e f (s ∷ ss) keeps ne =
    ground (arith, keeps s, find_smem-update_other d e f ss keeps ne)

find_smem-update_self :
    (d : ℕ) (f : Smem → Smem) (ss : List Smem) {s : Smem}
    → ((t : Smem) → (f t).dma_buf ≡ t.dma_buf)
    → find_smem d ss ≡ some s
    → find_smem d (update d f ss) ≡ some (f s)
unfolding find_smem update
find_smem-update_self d f [] keeps e = absurd (cc)
find_smem-update_self d f (t ∷ ts) {s} keeps e = elim (Bool-cases (d == t.dma_buf)) [
  | inl here ↦ let q : t ≡ s = ground (arith, here) in ground (arith, here, keeps t, ap f q)
  | inr further ↦
      let q : find_smem d ts ≡ some s = ground (arith, further) in
      ground (arith, further, find_smem-update_self d f ts keeps q)
]

find_smem-insert_other :
    (s : Smem) (e : ℕ) (ss : List Smem)
    → s.dma_buf ≢ e
    → find_smem e (insert_smem s ss) ≡ find_smem e ss
unfolding find_smem insert_smem
find_smem-insert_other s e [] ne = ground arith
find_smem-insert_other s e (t ∷ ts) ne = ground (arith, find_smem-insert_other s e ts ne)

find_smem-in_use :
    (e : ℕ) (ss : List Smem) {s : Smem}
    → find_smem e ss ≡ some s
    → s.refcount ≢ 0
    → find_smem e (in_use ss) ≡ some s
unfolding find_smem in_use
find_smem-in_use e [] q ne = absurd (cc)
find_smem-in_use e (t ∷ ts) {s} q ne = elim (Bool-cases (e == t.dma_buf)) [
  | inl here ↦
      let p : t ≡ s = ground (arith, here) in
      ground (arith, here, p, ap (λ (u : Smem). u.refcount) p)
  | inr further ↦
      let w : find_smem e ts ≡ some s = ground (arith, further) in
      ground (arith, further, find_smem-in_use e ts w ne)
]

session_add_smem-keeps :
    (unmaps : ℕ → Bool) (s : Smem) (c : Cache) (e : ℕ) {t : Smem}
    → s.dma_buf ≢ e
    → find_smem e c.tree ≡ some t
    → t.refcount ≢ 0
    → find_smem e (session_add_smem unmaps s c).1.tree ≡ some t
unfolding session_add_smem
session_add_smem-keeps unmaps s c e ne q used = ground (
  arith,
  q,
  find_smem-in_use e c.tree q used,
  find_smem-insert_other (inc_ref s) e c.tree ne,
  find_smem-insert_other (inc_ref s) e (in_use c.tree) ne,
)

abbrev use_it : ℕ → Smem → Smem
use_it pkt_type t = record (inc_ref t) { pkt_type = pkt_type }

session_find_smem-keeps :
    (d pkt_type : ℕ) (c : Cache) (e : ℕ) {s : Smem} {c' : Cache}
    → d ≢ e
    → session_find_smem d pkt_type c ≡ some (s, c')
    → find_smem e c'.tree ≡ find_smem e c.tree
unfolding session_find_smem
session_find_smem-keeps d pkt_type c e {s} {c'} ne q = elim (Option-cases (find_smem d c.tree)) [
  | inl n ↦ ground (arith, q, n)
  | inr (t, n) ↦
      ground (arith, q, n, find_smem-update_other d e (use_it pkt_type) c.tree (λ u. refl) ne)
]

put_smem-keeps :
    (d e : ℕ) (c : Cache) → d ≢ e → find_smem e (put_smem d c).tree ≡ find_smem e c.tree
unfolding put_smem
put_smem-keeps d e c ne = ground (arith, find_smem-update_other d e dec_ref c.tree (λ u. refl) ne)

-- A cached mapping that is in use stays as it is, with its references and its device address, while
-- any other buffer is asked for, also where the cache is full and unused mappings are freed.
pub session_get_smem-keeps :
    (unmaps : ℕ → Bool) (s : Smem) (d pkt_type : ℕ) (buf : BufType) (c : Cache) (e : ℕ) (t : Smem)
    → s.dma_buf ≡ d
    → d ≢ e
    → find_smem e c.tree ≡ some t
    → t.refcount ≢ 0
    → find_smem e (session_get_smem unmaps (some s) d pkt_type buf c).1.tree ≡ some t
unfolding session_get_smem
session_get_smem-keeps unmaps s d pkt_type buf c e t same ne q used =
    elim (Option-cases (session_find_smem d pkt_type c)) [
      | inl n ↦
          ground (
            arith,
            n,
            q,
            session_add_smem-keeps unmaps s c e {t = t} (λ p. ne (sym same ∙ p)) q used,
          )
      | inr ((found, c'), n) ↦
          ground
            (arith, n, q, session_find_smem-keeps d pkt_type c e ne n, put_smem-keeps d e c' ne)
    ]

get-cached :
    (unmaps : ℕ → Bool) (mapped : Option Smem) (d pkt_type : ℕ) (buf : BufType) (c : Cache)
    (t : Smem)
    → find_smem d c.tree ≡ some t
    → is_cvp_buf_valid buf t.size ≡ true
    → session_get_smem unmaps mapped d pkt_type buf c
      ≡ (some (use_it pkt_type t), record c { tree = update d (use_it pkt_type) c.tree })
unfolding session_get_smem session_find_smem
get-cached unmaps mapped d pkt_type buf c t q valid = ground (arith, q, valid)

unmap-cached :
    (d : ℕ) (c : Cache) (t : Smem)
    → find_smem d c.tree ≡ some t
    → find_smem d (unmap_frame_buf (d ∷ []) c).tree ≡ some (dec_ref t)
unfolding unmap_frame_buf
unmap-cached d c t q = ground (arith, q, find_smem-update_self d dec_ref c.tree (λ u. refl) q)

-- A frame that maps a cached buffer and is unmapped gives back the reference that it took: the
-- mapping is as it was, but for the type of the packet that used it last.
pub unmap_frame_buf-session_get_smem :
    (unmaps : ℕ → Bool) (mapped : Option Smem) (d pkt_type : ℕ) (buf : BufType) (c : Cache)
    (t : Smem)
    → find_smem d c.tree ≡ some t
    → is_cvp_buf_valid buf t.size ≡ true
    → let (found, c') = session_get_smem unmaps mapped d pkt_type buf c in
      (found ≡ some (record t { refcount = t.refcount + 1; pkt_type = pkt_type }))
      × (find_smem d (unmap_frame_buf (d ∷ []) c').tree ≡ some (record t { pkt_type = pkt_type }))
unmap_frame_buf-session_get_smem unmaps mapped d pkt_type buf c t q valid =
    rw (get-cached unmaps mapped d pkt_type buf c t q valid) (
      refl,
      unmap-cached d c' (use_it pkt_type t)
            (find_smem-update_self d (use_it pkt_type) c.tree (λ u. refl) q)
          ∙ ap some same,
    )
  where
    c' : Cache
    c' = record c { tree = update d (use_it pkt_type) c.tree }

    same : dec_ref (use_it pkt_type t) ≡ record t { pkt_type = pkt_type }
    same =
        let n : t.refcount + 1 - 1 ≡ t.refcount = omega arith in
        λ i. record t { pkt_type = pkt_type; refcount = n i }
