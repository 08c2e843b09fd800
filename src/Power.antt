-- ===== src/Power.antt =====
-- The votes for clock and bandwidth: msm/eva/cvp_power.c. Log lines and locks are left out. The
-- clock and interconnect calls, and the check of the session, answer with values in Power/Votes.
pub mod Votes
mod Levels
mod Demand
mod Rates
mod Cycles
mod Tests
use eva_driver.Prelude.{
  ℕ, ◌+◌, ◌-◌, ◌/◌, ◌%◌, ◌^◌, Bool, true, false, not, ◌&&◌, ◌||◌, Option, none, some, List, [], ◌∷◌,
}
use eva_driver.Prelude.Tests.{ltb, leb, ◌==◌, if◌then◌else◌}
use eva_driver.Prelude.Lists.{get_or, replicate}
use eva_driver.Prelude.Words.{u32_mod, add64}
use eva_driver.Prelude.Errno.{Rc, success, failed, hfi_error, einval, econnreset, enotsupp}

-- `HFI_MAX_HW_THREADS`, the length of each array over the hardware blocks, in the order of
-- `enum hfi_hw_thread`: FDU, MPU, OD, ICA, VADL, TOF, RGE, XRA, LSR.
abbrev pub max_hw_threads : ℕ
max_hw_threads = 9

-- The part of `struct cvp_session_prop` that the votes read; every number is a `u32`.
pub record SessionProp : Type 0 where
  pub priority : ℕ
  pub cycles : List ℕ
  pub fw_cycles : ℕ
  pub op_cycles : List ℕ
  pub fw_op_cycles : ℕ
  pub ddr_bw : ℕ
  pub ddr_op_bw : ℕ

-- A session on the core's list, with its state of `enum instance_state`.
pub record PowerInst : Type 0 where
  pub state : ℕ
  pub prop : SessionProp

-- `struct cvp_power_level`.
pub record PowerLevel : Type 0 where
  pub core_sum : ℕ
  pub op_core_sum : ℕ
  pub bw_sum : ℕ

-- An `unsigned long` put into an `int`, and read back as an `unsigned long`.
pub to_int : ℕ → ℕ
to_int x = let y = x % u32_mod in if ltb y (2 ^ 31) then y else y + (2 ^ 64 - 2 ^ 32)

-- `find_max`, from the value of `max` so far.
pub find_max_from : ℕ → List ℕ → ℕ
find_max_from max [] = max
find_max_from max (x ∷ xs) = find_max_from (if ltb max x then to_int x else max) xs

pub find_max : List ℕ → ℕ
unfolding find_max_from
find_max xs = find_max_from 0 xs

-- `is_subblock_profile_existed`: some block asks for cycles.
pub is_subblock_profile_existed : List ℕ → Bool
is_subblock_profile_existed [] = false
is_subblock_profile_existed (c ∷ cs) = not (c == 0) || is_subblock_profile_existed cs

-- The sessions that count: neither invalid nor given up, and with a profile.
unfoldable pub counts : PowerInst → Bool
counts i = not (i.state == 9 || i.state == 8 || not (is_subblock_profile_existed i.prop.cycles))

-- Row `i` of the arrays of `aggregate_power_update`.
pub record Sums : Type 0 where
  pub blocks_sum : List ℕ
  pub fw_sum : ℕ
  pub op_blocks_max : List ℕ
  pub op_fw_max : ℕ
  pub bw_sum : ℕ
  pub op_bw_max : ℕ

abbrev pub no_sums : Sums
no_sums = record {
  blocks_sum = replicate max_hw_threads 0;
  fw_sum = 0;
  op_blocks_max = replicate max_hw_threads 0;
  op_fw_max = 0;
  bw_sum = 0;
  op_bw_max = 0;
}

-- `(a >= b) ? a : b`.
abbrev pub larger : ℕ → ℕ → ℕ
larger a b = if leb b a then a else b

abbrev pub zip_with : (ℕ → ℕ → ℕ) → List ℕ → List ℕ → List ℕ
zip_with f [] ys = []
zip_with f (x ∷ xs) [] = x ∷ xs
zip_with f (x ∷ xs) (y ∷ ys) = f x y ∷ zip_with f xs ys

-- What the loop adds for one session to its row.
pub add_session : SessionProp → Sums → Sums
add_session p s = record {
  blocks_sum = zip_with add64 s.blocks_sum p.cycles;
  fw_sum = add64 s.fw_sum p.fw_cycles;
  op_blocks_max = zip_with larger s.op_blocks_max p.op_cycles;
  op_fw_max = larger s.op_fw_max p.fw_op_cycles;
  bw_sum = add64 s.bw_sum p.ddr_bw;
  op_bw_max = larger s.op_bw_max p.ddr_op_bw;
}

-- `inst->prop.priority <= CVP_RT_PRIO_THRESHOLD`: the row of the sessions that are not realtime.
abbrev pub is_nrt : SessionProp → Bool
is_nrt p = leb p.priority 1

pub add_inst : PowerInst → Sums × Sums → Sums × Sums
add_inst i (nrt, rt) =
    if not (counts i)
    then (nrt, rt)
    else if is_nrt i.prop
    then (add_session i.prop nrt, rt)
    else (nrt, add_session i.prop rt)

pub add_insts : List PowerInst → Sums × Sums → Sums × Sums
add_insts [] rows = rows
add_insts (i ∷ is) rows = add_insts is (add_inst i rows)

-- The second loop of `aggregate_power_update`, and its last lines, for one row.
pub raise_level : ℕ → Sums → PowerLevel → PowerLevel
raise_level max_clk_rate s l =
    let op_max_cycle = larger (find_max s.op_blocks_max) s.op_fw_max in
    let op_max_cycle' = if ltb max_clk_rate op_max_cycle then max_clk_rate else op_max_cycle in
    record {
      core_sum = add64 l.core_sum (larger (find_max s.blocks_sum) s.fw_sum);
      op_core_sum = larger l.op_core_sum op_max_cycle';
      bw_sum = add64 l.bw_sum (larger s.bw_sum s.op_bw_max);
    }

-- `aggregate_power_update`: the levels of the other sessions and of the realtime ones.
pub aggregate_power_update : List PowerInst → PowerLevel → PowerLevel → ℕ → PowerLevel × PowerLevel
aggregate_power_update insts nrt_pwr rt_pwr max_clk_rate =
    let (nrt, rt) = add_insts insts (no_sums, no_sums) in
    (raise_level max_clk_rate nrt nrt_pwr, raise_level max_clk_rate rt rt_pwr)
