-- ===== src/Power/Cycles.antt =====
-- `msm_cvp_get_hw_aggregate_cycles` of msm/eva/cvp_power.c, against the totals of the votes.
use eva_driver.Prelude.{
  ℕ, ◌+◌, ◌%◌, ◌<◌, ◌≡◌, sym, ◌∙◌, true, false, inl, inr, List, [], ◌∷◌, arith,
}
use eva_driver.Prelude.Tests.{Bool-cases}
use eva_driver.Prelude.Lists.{get_or}
use eva_driver.Prelude.Words.{u32_mod, u64_mod, add64}
use eva_driver.Power.{SessionProp, PowerInst, counts, max_hw_threads}
use eva_driver.Power.Votes.{add_cycles, get_hw_aggregate_cycles}
use eva_driver.Power.Levels.{counts-active, members, total}

block : ℕ → SessionProp → ℕ
block hwblk p = get_or p.cycles hwblk 0

add_cycles-total :
    (hwblk : ℕ) (is : List PowerInst) (sum : ℕ)
    → hwblk < max_hw_threads
    → sum < u64_mod
    → add_cycles hwblk is sum
      ≡ (sum
          + total (λ p. get_or p.cycles hwblk 0) (members true is)
          + total (λ p. get_or p.cycles hwblk 0) (members false is))
        % u64_mod
unfolding add_cycles members total
add_cycles-total hwblk [] sum h k = omega arith
add_cycles-total hwblk (i ∷ is) sum h k = elim (Bool-cases (counts i)) [
  | inl c ↦
      let a = sym (counts-active i) ∙ c in
      ground (
        arith,
        c,
        a,
        add_cycles-total hwblk is (add64 sum (get_or i.prop.cycles hwblk 0)) h (omega arith),
      )
  | inr c ↦
      let a = sym (counts-active i) ∙ c in ground (arith, c, a, add_cycles-total hwblk is sum h k)
]

-- The reported cycles of a hardware block are, as a `u32`, those that the two kinds of sessions
-- together ask for that block.
pub get_hw_aggregate_cycles_lem :
    (hwblk : ℕ) (is : List PowerInst)
    → hwblk < max_hw_threads
    → get_hw_aggregate_cycles hwblk is
      ≡ (total (λ p. get_or p.cycles hwblk 0) (members true is)
          + total (λ p. get_or p.cycles hwblk 0) (members false is))
        % u32_mod
unfolding get_hw_aggregate_cycles
get_hw_aggregate_cycles_lem hwblk is h = omega (arith, add_cycles-total hwblk is 0 h (omega arith))
