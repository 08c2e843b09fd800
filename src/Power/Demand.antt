-- ===== src/Power/Demand.antt =====
-- The levels that `aggregate_power_update` of msm/eva/cvp_power.c returns, against what the sessions
-- ask for.
use eva_driver.Prelude.{
  ℕ, zero, suc, ◌<◌, ◌^◌, max, min, ◌≡◌, refl, Bool, true, false, ◌&&◌, List, [], map, ◌∷◌, inl,
  inr, arith,
}
use eva_driver.Prelude.Tests.{ltb, Bool-cases, if◌then◌else◌}
use eva_driver.Prelude.Lists.{get_or, replicate, All, list_ext}
use eva_driver.Prelude.Words.{u64_mod, add64}
use eva_driver.Power.{
  SessionProp, PowerInst, PowerLevel, Sums, no_sums, larger, is_nrt, find_max, raise_level,
  aggregate_power_update, max_hw_threads,
}
use eva_driver.Power.Votes.{no_level}
use eva_driver.Power.Levels.{
  active, maximum, find_max_lem, members, same, total, peak, blocks, block_totals, block_peaks,
  add_all, add_insts-rows, IsProfile, add_all-length, add_all-blocks_sum, add_all-op_blocks_max,
  add_all-fw_sum, add_all-bw_sum, add_all-op_fw_max, add_all-op_bw_max,
}

-- What the sessions of one kind ask for, in plain arithmetic.
unfoldable pub demand : ℕ → List SessionProp → PowerLevel
demand max_rate ps = record {
  core_sum = max (maximum (block_totals ps)) (total (λ p. p.fw_cycles) ps);
  op_core_sum = min max_rate (max (maximum (block_peaks ps)) (peak (λ p. p.fw_op_cycles) ps));
  bw_sum = max (total (λ p. p.ddr_bw) ps) (peak (λ p. p.ddr_op_bw) ps);
}

-- No total wraps, and those of the blocks fit the `int` of `find_max`.
pub record InRange (ps : List SessionProp) : Type 0 where
  pub totals : All (λ x. x < 2 ^ 31) (block_totals ps)
  pub peaks : All (λ x. x < 2 ^ 31) (block_peaks ps)
  pub fw : total (λ p. p.fw_cycles) ps < u64_mod
  pub bw : max (total (λ p. p.ddr_bw) ps) (peak (λ p. p.ddr_op_bw) ps) < u64_mod

block-get_or :
    (f : ℕ → ℕ) (P : ℕ → Type 0) (j : ℕ)
    → j < max_hw_threads
    → (get_or (map f blocks) j 0 ≡ f j) × (All P (map f blocks) → P (f j))
block-get_or f P zero h = (refl, λ a. a.0)
block-get_or f P (suc zero) h = (refl, λ a. a.1.0)
block-get_or f P (suc (suc zero)) h = (refl, λ a. a.1.1.0)
block-get_or f P (suc (suc (suc zero))) h = (refl, λ a. a.1.1.1.0)
block-get_or f P (suc (suc (suc (suc zero)))) h = (refl, λ a. a.1.1.1.1.0)
block-get_or f P (suc (suc (suc (suc (suc zero))))) h = (refl, λ a. a.1.1.1.1.1.0)
block-get_or f P (suc (suc (suc (suc (suc (suc zero)))))) h = (refl, λ a. a.1.1.1.1.1.1.0)
block-get_or f P (suc (suc (suc (suc (suc (suc (suc zero))))))) h = (refl, λ a. a.1.1.1.1.1.1.1.0)
block-get_or f P (suc (suc (suc (suc (suc (suc (suc (suc zero)))))))) h =
    (refl, λ a. a.1.1.1.1.1.1.1.1.0)
block-get_or f P (suc (suc (suc (suc (suc (suc (suc (suc (suc j))))))))) h = absurd (omega arith)

members-All :
    (nrt : Bool) (is : List PowerInst)
    → All (λ i. IsProfile i.prop) is
    → All IsProfile (members nrt is)
unfolding members
members-All nrt [] w = tt
members-All nrt (i ∷ is) w = elim (Bool-cases (active i && same nrt (is_nrt i.prop))) [
  | inl c ↦ rw c (w.0, members-All nrt is w.1)
  | inr c ↦ rw c (members-All nrt is w.1)
]

get_or-zeros : (n j : ℕ) → let z : ℕ = 0 in get_or (replicate n z) j 0 ≡ 0
get_or-zeros zero j = refl
get_or-zeros (suc n) zero = refl
get_or-zeros (suc n) (suc j) = get_or-zeros n j

add_all-block_totals :
    (ps : List SessionProp)
    → All IsProfile ps
    → InRange ps
    → (add_all ps no_sums).blocks_sum ≡ block_totals ps
unfolding block_totals
add_all-block_totals ps w r =
    let l = add_all-length ps no_sums w refl refl in
    list_ext _ _ 0 l.0 (λ j h.
      let f = λ (k : ℕ). total (λ p. get_or p.cycles k 0) ps in
      let (e, small) = block-get_or f (λ x. x < 2 ^ 31) j (omega (arith, l.0)) in
      omega (
        arith,
        e,
        small r.totals,
        get_or-zeros 9 j,
        add_all-blocks_sum ps no_sums j w refl (omega (arith, l.0))
            (omega (arith, small r.totals, get_or-zeros 9 j)),
      ))

add_all-block_peaks :
    (ps : List SessionProp) → All IsProfile ps → (add_all ps no_sums).op_blocks_max ≡ block_peaks ps
unfolding block_peaks
add_all-block_peaks ps w =
    let l = add_all-length ps no_sums w refl refl in
    list_ext _ _ 0 l.1 (λ j h.
      let f = λ (k : ℕ). peak (λ p. get_or p.op_cycles k 0) ps in
      omega (
        arith,
        (block-get_or f (λ x. x < 2 ^ 31) j (omega (arith, l.1))).0,
        get_or-zeros 9 j,
        add_all-op_blocks_max ps no_sums j w refl (omega (arith, l.1)),
      ))

maximum-lt : (xs : List ℕ) → All (λ x. x < 2 ^ 31) xs → maximum xs < 2 ^ 31
unfolding maximum
maximum-lt [] all = omega arith
maximum-lt (x ∷ xs) all = omega (arith, all.0, maximum-lt xs all.1)

-- One row's level, from equations for the row's fields.
raise_level_lem :
    (max_rate : ℕ) (s : Sums) {cycles fw op_cycles op_fw bw op_bw : ℕ}
    → find_max s.blocks_sum ≡ cycles
    → s.fw_sum ≡ fw
    → find_max s.op_blocks_max ≡ op_cycles
    → s.op_fw_max ≡ op_fw
    → s.bw_sum ≡ bw
    → s.op_bw_max ≡ op_bw
    → max cycles fw < u64_mod
    → max bw op_bw < u64_mod
    → raise_level max_rate s no_level ≡ record {
      core_sum = max cycles fw;
      op_core_sum = min max_rate (max op_cycles op_fw);
      bw_sum = max bw op_bw;
    }
unfolding raise_level
raise_level_lem max_rate s {cycles} {fw} {op_cycles} {op_fw} {bw} {op_bw} a b c d e f g h =
    rw (a, b, c, d, e, f) (λ i. record { core_sum = core i; op_core_sum = op i; bw_sum = band i })
  where
    core : add64 0 (larger cycles fw) ≡ max cycles fw
    core = ground arith

    op :
        larger 0
          (if ltb max_rate (larger op_cycles op_fw) then max_rate else larger op_cycles op_fw)
        ≡ min max_rate (max op_cycles op_fw)
    op = ground arith

    band : add64 0 (larger bw op_bw) ≡ max bw op_bw
    band = ground arith

raise_level-demand :
    (max_rate : ℕ) (ps : List SessionProp)
    → All IsProfile ps
    → InRange ps
    → raise_level max_rate (add_all ps no_sums) no_level ≡ demand max_rate ps
unfolding demand
raise_level-demand max_rate ps w r =
    raise_level_lem max_rate (add_all ps no_sums)
      (rw (add_all-block_totals ps w r) (find_max_lem (block_totals ps) r.totals))
      (omega (arith, add_all-fw_sum ps no_sums (omega (arith, r.fw))))
      (rw (add_all-block_peaks ps w) (find_max_lem (block_peaks ps) r.peaks))
      (omega (arith, add_all-op_fw_max ps no_sums))
      (omega (arith, add_all-bw_sum ps no_sums (omega (arith, r.bw))))
      (omega (arith, add_all-op_bw_max ps no_sums))
      (omega (arith, r.fw, maximum-lt (block_totals ps) r.totals)) r.bw

-- The levels of `aggregate_power_update` are what the sessions of each kind ask for that are neither
-- given up nor invalid and ask some block for cycles: the cycles are the larger of the largest block's
-- total and the firmware's total, the operating point is the largest one, up to the table's last
-- rate, and the bandwidth is the larger of the total and the largest one. Each session has an entry
-- for every block, the blocks' totals fit an `int`, and no total wraps.
pub aggregate_power_update_lem :
    (max_rate : ℕ) (is : List PowerInst)
    → All (λ i. IsProfile i.prop) is
    → InRange (members true is)
    → InRange (members false is)
    → aggregate_power_update is no_level no_level max_rate
      ≡ (demand max_rate (members true is), demand max_rate (members false is))
unfolding aggregate_power_update
aggregate_power_update_lem max_rate is w nrt rt = rw (
  add_insts-rows is no_sums no_sums,
  raise_level-demand max_rate (members true is) (members-All true is w) nrt,
  raise_level-demand max_rate (members false is) (members-All false is w) rt,
)
