-- ===== src/Power/Levels.antt =====
-- What `aggregate_power_update` of msm/eva/cvp_power.c sums up, against totals over the sessions.
use eva_driver.Prelude.{
  ℕ, zero, suc, ◌+◌, ◌-◌, ◌≤◌, ◌<◌, ◌^◌, max, ◌≡◌, refl, sym, ◌∙◌, Bool, not, ◌&&◌, true, false,
  inl, inr, List, [], ◌∷◌, map, arith,
}
use eva_driver.Prelude.Tests.{ltb, ◌==◌, Bool-cases, if◌then◌else◌}
use eva_driver.Prelude.Lists.{length, get_or, All}
use eva_driver.Prelude.Words.{u64_mod, add64}
use eva_driver.Power.{
  SessionProp, PowerInst, Sums, larger, zip_with, to_int, find_max_from, find_max, counts, is_nrt,
  is_subblock_profile_existed, add_session, add_inst, add_insts, max_hw_threads,
}

-- The largest of the numbers.
unfoldable pub maximum : List ℕ → ℕ
maximum [] = 0
maximum (x ∷ xs) = max x (maximum xs)

larger-max : (m x : ℕ) → m < 2 ^ 31 → x < 2 ^ 31 → (if ltb m x then to_int x else m) ≡ max m x
unfolding to_int
larger-max m x hm hx = ground arith

find_max_from_lem :
    (m : ℕ) (xs : List ℕ)
    → m < 2 ^ 31
    → All (λ x. x < 2 ^ 31) xs
    → find_max_from m xs ≡ max m (maximum xs)
unfolding find_max_from maximum
find_max_from_lem m [] small all = omega arith
find_max_from_lem m (x ∷ xs) small all =
    rw (larger-max m x small all.0)
      (omega (arith, find_max_from_lem (max m x) xs (omega (arith, all.0)) all.1))

-- `find_max` returns the largest number of the array, if every number fits an `int`.
pub find_max_lem : (xs : List ℕ) → All (λ x. x < 2 ^ 31) xs → find_max xs ≡ maximum xs
unfolding find_max
find_max_lem xs all = omega (arith, find_max_from_lem 0 xs (omega arith) all)

abbrev pub same : Bool → Bool → Bool
same true b = b
same false b = not b

-- A session that is neither given up, state 8, nor invalid, state 9, and asks some block for cycles.
unfoldable pub active : PowerInst → Bool
unfolding maximum
active i = ltb 0 (maximum i.prop.cycles) && not (i.state == 8) && not (i.state == 9)

existed_lem : (cs : List ℕ) → is_subblock_profile_existed cs ≡ ltb 0 (maximum cs)
unfolding is_subblock_profile_existed maximum
existed_lem [] = ground arith
existed_lem (c ∷ cs) = ground (arith, existed_lem cs)

pub counts-active : (i : PowerInst) → counts i ≡ active i
unfolding counts active
counts-active i = ground (arith, existed_lem i.prop.cycles)

-- The active sessions of one kind: realtime ones, or the others.
unfoldable pub members : Bool → List PowerInst → List SessionProp
members nrt [] = []
members nrt (i ∷ is) =
    if active i && same nrt (is_nrt i.prop) then i.prop ∷ members nrt is else members nrt is

unfoldable pub total : (SessionProp → ℕ) → List SessionProp → ℕ
total f [] = 0
total f (p ∷ ps) = f p + total f ps

unfoldable pub peak : (SessionProp → ℕ) → List SessionProp → ℕ
peak f [] = 0
peak f (p ∷ ps) = max (f p) (peak f ps)

abbrev pub blocks : List ℕ
blocks = 0 ∷ 1 ∷ 2 ∷ 3 ∷ 4 ∷ 5 ∷ 6 ∷ 7 ∷ 8 ∷ []

-- For each hardware block the cycles that the sessions ask for, added up.
unfoldable pub block_totals : List SessionProp → List ℕ
unfolding total
block_totals ps = map (λ j. total (λ p. get_or p.cycles j 0) ps) blocks

-- For each hardware block the largest of the sessions' operating points.
unfoldable pub block_peaks : List SessionProp → List ℕ
unfolding peak
block_peaks ps = map (λ j. peak (λ p. get_or p.op_cycles j 0) ps) blocks

pub add_all : List SessionProp → Sums → Sums
add_all [] s = s
add_all (p ∷ ps) s = add_all ps (add_session p s)

pub add_insts-rows :
    (is : List PowerInst) (nrt rt : Sums)
    → add_insts is (nrt, rt) ≡ (add_all (members true is) nrt, add_all (members false is) rt)
unfolding add_insts add_inst members add_all
add_insts-rows [] nrt rt = refl
add_insts-rows (i ∷ is) nrt rt = elim (Bool-cases (counts i)) [
  | inl c ↦
      let a = sym (counts-active i) ∙ c in
      elim (Bool-cases (is_nrt i.prop)) [
        | inl k ↦ rw (c, a, k) (add_insts-rows is (add_session i.prop nrt) rt)
        | inr k ↦ rw (c, a, k) (add_insts-rows is nrt (add_session i.prop rt))
      ]
  | inr c ↦ let a = sym (counts-active i) ∙ c in rw (c, a) (add_insts-rows is nrt rt)
]

-- The arrays have an entry for each hardware block.
abbrev pub IsProfile : SessionProp → Type 0
IsProfile p = (length p.cycles ≡ max_hw_threads) × (length p.op_cycles ≡ max_hw_threads)

zip_with-length :
    (f : ℕ → ℕ → ℕ) (xs ys : List ℕ) → length xs ≡ length ys → length (zip_with f xs ys) ≡ length xs
zip_with-length f [] ys e = refl
zip_with-length f (x ∷ xs) [] e = refl
zip_with-length f (x ∷ xs) (y ∷ ys) e = omega (arith, zip_with-length f xs ys (omega arith))

get_or-zip_with :
    (f : ℕ → ℕ → ℕ) (xs ys : List ℕ) (j : ℕ)
    → length xs ≡ length ys
    → j < length xs
    → get_or (zip_with f xs ys) j 0 ≡ f (get_or xs j 0) (get_or ys j 0)
get_or-zip_with f [] ys j e h = absurd (omega arith)
get_or-zip_with f (x ∷ xs) [] j e h = absurd (omega arith)
get_or-zip_with f (x ∷ xs) (y ∷ ys) zero e h = refl
get_or-zip_with f (x ∷ xs) (y ∷ ys) (suc j) e h =
    get_or-zip_with f xs ys j (omega arith) (omega arith)

pub add_all-length :
    (ps : List SessionProp) (s : Sums)
    → All IsProfile ps
    → length s.blocks_sum ≡ max_hw_threads
    → length s.op_blocks_max ≡ max_hw_threads
    → (length (add_all ps s).blocks_sum ≡ max_hw_threads)
      × (length (add_all ps s).op_blocks_max ≡ max_hw_threads)
unfolding add_all add_session
add_all-length [] s w a b = (a, b)
add_all-length (p ∷ ps) s w a b =
    add_all-length ps (add_session p s) w.1
      (omega (arith, zip_with-length add64 s.blocks_sum p.cycles (omega (arith, w.0)), a))
      (omega (arith, zip_with-length larger s.op_blocks_max p.op_cycles (omega (arith, w.0)), b))

pub add_all-blocks_sum :
    (ps : List SessionProp) (s : Sums) (j : ℕ)
    → All IsProfile ps
    → length s.blocks_sum ≡ max_hw_threads
    → j < max_hw_threads
    → get_or s.blocks_sum j 0 + total (λ p. get_or p.cycles j 0) ps < u64_mod
    → get_or (add_all ps s).blocks_sum j 0
      ≡ get_or s.blocks_sum j 0 + total (λ p. get_or p.cycles j 0) ps
unfolding add_all add_session total
add_all-blocks_sum [] s j w a h b = omega arith
add_all-blocks_sum (p ∷ ps) s j w a h b =
    let e = get_or-zip_with add64 s.blocks_sum p.cycles j (omega (arith, w.0)) (omega arith) in
    let l = zip_with-length add64 s.blocks_sum p.cycles (omega (arith, w.0)) in
    omega (
      arith,
      e,
      add_all-blocks_sum ps (add_session p s) j w.1 (omega (arith, l)) h (omega (arith, e)),
    )

pub add_all-op_blocks_max :
    (ps : List SessionProp) (s : Sums) (j : ℕ)
    → All IsProfile ps
    → length s.op_blocks_max ≡ max_hw_threads
    → j < max_hw_threads
    → get_or (add_all ps s).op_blocks_max j 0
      ≡ max (get_or s.op_blocks_max j 0) (peak (λ p. get_or p.op_cycles j 0) ps)
unfolding add_all add_session peak
add_all-op_blocks_max [] s j w a h = omega arith
add_all-op_blocks_max (p ∷ ps) s j w a h =
    let e =
      get_or-zip_with larger s.op_blocks_max p.op_cycles j (omega (arith, w.0)) (omega arith) in
    let l = zip_with-length larger s.op_blocks_max p.op_cycles (omega (arith, w.0)) in
    ground (arith, e, add_all-op_blocks_max ps (add_session p s) j w.1 (omega (arith, l)) h)

pub add_all-fw_sum :
    (ps : List SessionProp) (s : Sums)
    → s.fw_sum + total (λ p. p.fw_cycles) ps < u64_mod
    → (add_all ps s).fw_sum ≡ s.fw_sum + total (λ p. p.fw_cycles) ps
unfolding add_all add_session total
add_all-fw_sum [] s b = omega arith
add_all-fw_sum (p ∷ ps) s b = omega (arith, add_all-fw_sum ps (add_session p s) (omega arith))

pub add_all-bw_sum :
    (ps : List SessionProp) (s : Sums)
    → s.bw_sum + total (λ p. p.ddr_bw) ps < u64_mod
    → (add_all ps s).bw_sum ≡ s.bw_sum + total (λ p. p.ddr_bw) ps
unfolding add_all add_session total
add_all-bw_sum [] s b = omega arith
add_all-bw_sum (p ∷ ps) s b = omega (arith, add_all-bw_sum ps (add_session p s) (omega arith))

pub add_all-op_fw_max :
    (ps : List SessionProp) (s : Sums)
    → (add_all ps s).op_fw_max ≡ max s.op_fw_max (peak (λ p. p.fw_op_cycles) ps)
unfolding add_all add_session peak
add_all-op_fw_max [] s = omega arith
add_all-op_fw_max (p ∷ ps) s = ground (arith, add_all-op_fw_max ps (add_session p s))

pub add_all-op_bw_max :
    (ps : List SessionProp) (s : Sums)
    → (add_all ps s).op_bw_max ≡ max s.op_bw_max (peak (λ p. p.ddr_op_bw) ps)
unfolding add_all add_session peak
add_all-op_bw_max [] s = omega arith
add_all-op_bw_max (p ∷ ps) s = ground (arith, add_all-op_bw_max ps (add_session p s))

truncated :
    (y : ℕ) → 2 ^ 32 ≤ y → y < 2 ^ 32 + 2 ^ 31 → (if ltb 0 y then to_int y else 0) ≡ y - 2 ^ 32
unfolding to_int
truncated y a b = ground arith

-- A number from 2^32 on loses its high bits in the `int` of `find_max`: what is kept of it is what
-- it exceeds 2^32 by.
pub find_max-truncates :
    (x : ℕ) (xs : List ℕ)
    → 2 ^ 32 ≤ x
    → x < 2 ^ 32 + 2 ^ 31
    → All (λ y. y < 2 ^ 31) xs
    → find_max (x ∷ xs) ≡ max (x - 2 ^ 32) (maximum xs)
unfolding find_max find_max_from
find_max-truncates x xs lo hi all =
    rw (truncated x lo hi) (find_max_from_lem (x - 2 ^ 32) xs (omega arith) all)
