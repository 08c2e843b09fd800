-- ===== src/Power/Votes.antt =====
-- The votes for a clock rate and a bandwidth, and the cycles that are reported
-- (msm/eva/cvp_power.c).
use eva_driver.Prelude.{
  ℕ, ◌/◌, ◌%◌, Bool, true, false, not, ◌&&◌, ◌||◌, Option, none, some, List, [], ◌∷◌,
}
use eva_driver.Prelude.Tests.{ltb, leb, if◌then◌else◌}
use eva_driver.Prelude.Lists.{get_or}
use eva_driver.Prelude.Words.{u32_mod, add64}
use eva_driver.Prelude.Errno.{Rc, success, failed, hfi_error, einval, econnreset, enotsupp}
use eva_driver.Power.{max_hw_threads, PowerInst, PowerLevel, counts, larger, aggregate_power_update}

-- What a vote reads and writes of `struct msm_cvp_core`, and `hdev->clk_freq`.
pub record PowerCore : Type 0 where
  pub instances : List PowerInst
  pub allowed_clks_tbl : List ℕ
  pub curr_freq : ℕ
  pub orig_core_sum : ℕ
  pub bw_sum : ℕ
  pub clk_freq : ℕ

-- `for (i = 1; ...) if (core_sum <= tbl[i].clock_rate) break;` and `tbl[i].clock_rate`, over the
-- table from entry 1 on; `none` is a read behind the table.
unfoldable pub first_at_least : ℕ → List ℕ → Option ℕ
first_at_least core_sum [] = none
first_at_least core_sum (rate ∷ tbl) = elim (leb core_sum rate) [
  | true ↦ some rate
  | false ↦ first_at_least core_sum tbl
]

abbrev pub last_or : ℕ → List ℕ → ℕ
last_or rate [] = rate
last_or rate (x ∷ xs) = last_or x xs

-- The clock rate for a sum that is in range.
unfoldable pub pick_rate : ℕ → ℕ → List ℕ → Option ℕ
pick_rate core_sum min_rate tbl =
    if ltb (last_or min_rate tbl) core_sum
    then some (last_or min_rate tbl)
    else if leb core_sum min_rate
    then some min_rate
    else first_at_least core_sum tbl

abbrev pub no_level : PowerLevel
no_level = record { core_sum = 0; op_core_sum = 0; bw_sum = 0 }

-- `bw_sum` put between the limits.
unfoldable pub clamp_bw : ℕ → ℕ → ℕ → ℕ
clamp_bw max_bw min_bw bw_sum =
    let below = if ltb max_bw bw_sum then max_bw else bw_sum in
    if ltb below min_bw then min_bw else below

-- The clock cycles that `adjust_bw_freqs` finds, summed over the two kinds of sessions, and the
-- larger of the two kinds' operating points.
unfoldable pub core_request : PowerLevel × PowerLevel → ℕ
core_request (nrt, rt) = add64 rt.core_sum nrt.core_sum

unfoldable pub op_request : PowerLevel × PowerLevel → ℕ
op_request (nrt, rt) = larger rt.op_core_sum nrt.op_core_sum

-- `adjust_bw_freqs`; `none` is a read outside the table of clock rates.
unfoldable pub adjust_bw_freqs : ℕ → ℕ → PowerCore → Option (Rc × PowerCore)
unfolding core_request op_request
adjust_bw_freqs max_bw min_bw c = elim c.allowed_clks_tbl [
  | [] ↦ none
  | min_rate ∷ tbl ↦
      let levels = aggregate_power_update c.instances no_level no_level (last_or min_rate tbl) in
      if ltb (last_or min_rate tbl) (core_request levels)
      then some (failed enotsupp, c)
      else elim (pick_rate (larger (core_request levels) (op_request levels)) min_rate tbl) [
        | none ↦ none
        | some rate ↦ some (
          success,
          record c {
            curr_freq = rate;
            orig_core_sum = c.curr_freq;
            clk_freq = rate;
            bw_sum = clamp_bw max_bw min_bw (add64 levels.1.bw_sum levels.0.bw_sum);
          },
        )
      ]
]

-- A bus of the device tree: whether its name is "eva-ddr", and `range[1]`.
pub record Bus : Type 0 where
  pub is_eva_ddr : Bool
  pub max_bw : ℕ

-- What `msm_cvp_update_power` meets: whether the session is valid, whether the core is down, the
-- build's CVP_OPP_ENABLED and the last clock's `has_scaling`, the buses, and the answers of
-- `msm_cvp_set_clocks` and `msm_cvp_set_bw`.
pub record Platform : Type 0 where
  pub valid : Bool
  pub uninit : Bool
  pub opp_enabled : Bool
  pub has_scaling : Bool
  pub buses : List Bus
  pub set_clocks : Rc
  pub set_bw : Rc

-- The last "eva-ddr" bus of the list.
pub find_bus : List Bus → Option ℕ → Option ℕ
find_bus [] found = found
find_bus (b ∷ bs) found = find_bus bs (if b.is_eva_ddr then some b.max_bw else found)

-- `msm_cvp_update_power` for a session and a core that are there.
unfoldable pub update_power : Platform → PowerCore → Option (Rc × PowerCore)
update_power p c =
    if not p.valid || p.uninit
    then some (failed econnreset, c)
    else if not p.opp_enabled && not p.has_scaling
    then some (failed einval, c)
    else elim (find_bus p.buses none) [
      | none ↦ some (failed einval, c)
      | some max_bw ↦ elim (adjust_bw_freqs max_bw (max_bw / 100) c) [
        | none ↦ none
        | some (success, c') ↦ elim p.set_clocks [
          | success ↦ some (p.set_bw, c')
          | failed e ↦ some (failed e, record c' { curr_freq = c'.orig_core_sum })
          | hfi_error n ↦ some (hfi_error n, record c' { curr_freq = c'.orig_core_sum })
        ]
        | some (failed e, c') ↦ some (failed e, c')
        | some (hfi_error n, c') ↦ some (hfi_error n, c')
      ]
    ]

-- `msm_cvp_get_hw_aggregate_cycles` for a core that is there: an unknown block adds nothing.
unfoldable pub add_cycles : ℕ → List PowerInst → ℕ → ℕ
add_cycles hwblk [] sum = sum
add_cycles hwblk (i ∷ is) sum =
    add_cycles hwblk is (
      if counts i && ltb hwblk max_hw_threads
      then add64 sum (get_or i.prop.cycles hwblk 0)
      else sum)

unfoldable pub get_hw_aggregate_cycles : ℕ → List PowerInst → ℕ
unfolding add_cycles
get_hw_aggregate_cycles hwblk insts = add_cycles hwblk insts 0 % u32_mod
