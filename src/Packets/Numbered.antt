-- ===== src/Packets/Numbered.antt =====
-- The numbering of the commands of a client (msm/eva/msm_cvp_platform.c), told without its bit tests:
-- the index that a type has in the platform's table.
use eva_driver.Prelude.{
  ℕ, ◌+◌, ◌-◌, ◌/◌, ◌%◌, ◌^◌, ◌<◌, ◌≡◌, ◌≢◌, refl, inl, inr, true, false, ◌||◌, some, List, arith,
}
use eva_driver.Prelude.Tests.{ltb, leb, ◌==◌, Bool-cases, Option-cases}
use eva_driver.Prelude.Lists.{get_elem?}
use eva_driver.Prelude.Words.{u32_mod}
use eva_driver.Messages.{max_pkt_idx}
use eva_driver.Packets.Index.{
  HfiDef, cmd_session_start, index_v2, known_index, get_pkt_index_from_type,
}

-- The types of the first version follow one another. Those of the later ones are four ranges, whose
-- entries follow one another from the indices 0, 50, 100 and 150 on.
pub data IsNumbered (hfi_ver : ℕ) : ℕ → ℕ → Type 0 where
  first_version : {t i : ℕ} → hfi_ver ≡ 1 → t ≡ 0x4011000 + i → IsNumbered hfi_ver t i
  from_0 : {t i : ℕ} → hfi_ver ≢ 1 → t ≡ 0x1200000 + i → IsNumbered hfi_ver t i
  from_50 :
      {t i : ℕ} (j : ℕ) → hfi_ver ≢ 1 → t ≡ 0x1201000 + j → i ≡ 50 + j → IsNumbered hfi_ver t i
  from_100 :
      {t i : ℕ} (j : ℕ) → hfi_ver ≢ 1 → t ≡ 0x1202000 + j → i ≡ 100 + j → IsNumbered hfi_ver t i
  from_150 :
      {t i : ℕ} (j : ℕ) → hfi_ver ≢ 1 → t ≡ 0x1203000 + j → i ≡ 150 + j → IsNumbered hfi_ver t i

-- Where the bits 12 and 13 are those of a range, its offset is the index.
index_v2-0 : (i : ℕ) → i < max_pkt_idx → index_v2 (0x1200000 + i) ≡ i
unfolding index_v2
index_v2-0 i h =
    let a : ((0x1200000 + i) / 4096 % 2 == 1) ≡ false = ground (arith, h) in
    let b : ((0x1200000 + i) / 8192 % 2 == 1) ≡ false = ground (arith, h) in
    simp (a, b) (omega (arith, h))

index_v2-50 : (j : ℕ) → 50 + j < max_pkt_idx → index_v2 (0x1201000 + j) ≡ 50 + j
unfolding index_v2
index_v2-50 j h =
    let a : ((0x1201000 + j) / 4096 % 2 == 1) ≡ true = ground (arith, h) in
    let b : ((0x1201000 + j) / 8192 % 2 == 1) ≡ false = ground (arith, h) in
    simp (a, b) (omega (arith, h))

index_v2-100 : (j : ℕ) → 100 + j < max_pkt_idx → index_v2 (0x1202000 + j) ≡ 100 + j
unfolding index_v2
index_v2-100 j h =
    let a : ((0x1202000 + j) / 4096 % 2 == 1) ≡ false = ground (arith, h) in
    let b : ((0x1202000 + j) / 8192 % 2 == 1) ≡ true = ground (arith, h) in
    simp (a, b) (omega (arith, h))

index_v2-150 : (j : ℕ) → 150 + j < max_pkt_idx → index_v2 (0x1203000 + j) ≡ 150 + j
unfolding index_v2
index_v2-150 j h =
    let a : ((0x1203000 + j) / 4096 % 2 == 1) ≡ true = ground (arith, h) in
    let b : ((0x1203000 + j) / 8192 % 2 == 1) ≡ true = ground (arith, h) in
    simp (a, b) (omega (arith, h))

-- The index of a type leads back to the type.
index_v2-IsNumbered :
    (hfi_ver t i : ℕ)
    → hfi_ver ≢ 1
    → t < u32_mod
    → i < max_pkt_idx
    → index_v2 t ≡ i
    → IsNumbered hfi_ver t i
unfolding index_v2
index_v2-IsNumbered hfi_ver t i v w h e = elim (Bool-cases (t / 4096 % 2 == 1)) [
  | inl a ↦ elim (Bool-cases (t / 8192 % 2 == 1)) [
    | inl b ↦
        let f : (t + u32_mod - 0x1203000 + 0x96) % u32_mod ≡ i = simp (a, b) at e in
        let a' : t / 4096 % 2 ≡ 1 = ground (arith, a) in
        let b' : t / 8192 % 2 ≡ 1 = ground (arith, b) in
        from_150 (t - 0x1203000) v (omega (arith, a', b', w, h, f)) (omega (arith, a', b', w, h, f))
    | inr b ↦
        let f : (t + u32_mod - 0x1201000 + 0x32) % u32_mod ≡ i = simp (a, b) at e in
        let a' : t / 4096 % 2 ≡ 1 = ground (arith, a) in
        let b' : t / 8192 % 2 ≡ 0 = ground (arith, b) in
        from_50 (t - 0x1201000) v (omega (arith, a', b', w, h, f)) (omega (arith, a', b', w, h, f))
  ]
  | inr a ↦ elim (Bool-cases (t / 8192 % 2 == 1)) [
    | inl b ↦
        let f : (t + u32_mod - 0x1202000 + 0x64) % u32_mod ≡ i = simp (a, b) at e in
        let a' : t / 4096 % 2 ≡ 0 = ground (arith, a) in
        let b' : t / 8192 % 2 ≡ 1 = ground (arith, b) in
        from_100 (t - 0x1202000) v (omega (arith, a', b', w, h, f)) (omega (arith, a', b', w, h, f))
    | inr b ↦
        let f : (t + u32_mod - 0x1200000) % u32_mod ≡ i = simp (a, b) at e in
        from_0 v (omega (arith, w, h, f))
  ]
]

known_index-index :
    (defs : List HfiDef) (k : ℕ) {i : ℕ} → known_index defs k ≡ some (some i) → k ≡ i
unfolding known_index
known_index-index defs k e = elim (Option-cases (get_elem? defs k)) [
  | inl n ↦ absurd (let e' = rw (known_index, n) at e in cc)
  | inr (d, q) ↦ elim (Bool-cases (d.size == 0)) [
    | inl z ↦ absurd (let e' = rw (known_index, q, z) at e in cc)
    | inr z ↦ let e' = rw (known_index, q, z) at e in cc
  ]
]

-- An index that is found is the type's number.
pub get_pkt_index-IsNumbered :
    (hfi_ver t i : ℕ) (defs : List HfiDef)
    → t < u32_mod
    → i < max_pkt_idx
    → get_pkt_index_from_type hfi_ver defs t ≡ some (some i)
    → IsNumbered hfi_ver t i
unfolding get_pkt_index_from_type
get_pkt_index-IsNumbered hfi_ver t i defs w h e = elim (Bool-cases (hfi_ver == 1)) [
  | inl v ↦ elim (Bool-cases (ltb t cmd_session_start || leb (cmd_session_start + max_pkt_idx) t)) [
    | inl o ↦ absurd (let e' = rw (v, o) at e in cc)
    | inr o ↦
        let e' = rw (v, o) at e in
        let k = known_index-index defs (t - cmd_session_start) e' in
        first_version (ground (arith, v)) (ground (arith, o, k))
  ]
  | inr v ↦ elim (Bool-cases (leb (2 ^ 31) (index_v2 t) || leb max_pkt_idx (index_v2 t))) [
    | inl o ↦ absurd (let e' = rw (v, o) at e in cc)
    | inr o ↦
        let e' = rw (v, o) at e in
        index_v2-IsNumbered hfi_ver t i (ground (arith, v)) w h
          (known_index-index defs (index_v2 t) e')
  ]
]

found_v2 :
    (hfi_ver t i : ℕ) (defs : List HfiDef) (d : HfiDef)
    → hfi_ver ≢ 1
    → i < max_pkt_idx
    → get_elem? defs i ≡ some d
    → d.size ≢ 0
    → index_v2 t ≡ i
    → get_pkt_index_from_type hfi_ver defs t ≡ some (some i)
unfolding get_pkt_index_from_type known_index
found_v2 hfi_ver t i defs d v h q u e =
    let v' : (hfi_ver == 1) ≡ false = ground (arith, v) in
    let o : (leb (2 ^ 31) i || leb max_pkt_idx i) ≡ false = ground (arith, h) in
    let z : (d.size == 0) ≡ false = ground (arith, u) in simp (v', e, o, known_index, q, z) refl

-- An entry in use is found by its number.
pub IsNumbered-get_pkt_index :
    (hfi_ver t i : ℕ) (defs : List HfiDef) (d : HfiDef)
    → IsNumbered hfi_ver t i
    → i < max_pkt_idx
    → get_elem? defs i ≡ some d
    → d.size ≢ 0
    → get_pkt_index_from_type hfi_ver defs t ≡ some (some i)
unfolding get_pkt_index_from_type known_index
IsNumbered-get_pkt_index hfi_ver t i defs d (first_version v e) h q u =
    let v' : (hfi_ver == 1) ≡ true = ground (arith, v) in
    let o : (ltb t cmd_session_start || leb (cmd_session_start + max_pkt_idx) t) ≡ false =
      ground (arith, h, e) in
    let k : t - cmd_session_start ≡ i = omega (arith, e) in
    let z : (d.size == 0) ≡ false = ground (arith, u) in simp (v', o, k, known_index, q, z) refl
IsNumbered-get_pkt_index hfi_ver t i defs d (from_0 v e) h q u =
    found_v2 hfi_ver t i defs d v h q u (rw e (index_v2-0 i h))
IsNumbered-get_pkt_index hfi_ver t i defs d (from_50 j v e f) h q u =
    found_v2 hfi_ver t i defs d v h q u (rw (e, f) (index_v2-50 j (omega (arith, h, f))))
IsNumbered-get_pkt_index hfi_ver t i defs d (from_100 j v e f) h q u =
    found_v2 hfi_ver t i defs d v h q u (rw (e, f) (index_v2-100 j (omega (arith, h, f))))
IsNumbered-get_pkt_index hfi_ver t i defs d (from_150 j v e f) h q u =
    found_v2 hfi_ver t i defs d v h q u (rw (e, f) (index_v2-150 j (omega (arith, h, f))))
