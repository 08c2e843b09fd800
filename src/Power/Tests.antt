-- ===== src/Power/Tests.antt =====
-- The votes for clock and bandwidth, and their theorems, at concrete inputs.
use eva_driver.Prelude.{ℕ, ◌≡◌, refl, true, false, some, List, [], ◌∷◌, arith}
use eva_driver.Prelude.Errno.{success, failed, eio}
use eva_driver.Power.{
  SessionProp, PowerInst, find_max, counts, is_subblock_profile_existed, to_int, find_max_from,
  add_insts, add_inst, add_session, raise_level, aggregate_power_update,
}
use eva_driver.Power.Votes.{
  PowerCore, Platform, no_level, adjust_bw_freqs, core_request, op_request, first_at_least,
  pick_rate, clamp_bw,
}
use eva_driver.Power.Levels.{members, active, total, peak, block_totals, block_peaks, maximum}
use eva_driver.Power.Demand.{demand, InRange, aggregate_power_update_lem}
use eva_driver.Power.Rates.{Votes, adjust_bw_freqs_lem}

abbrev prop : ℕ → ℕ → ℕ → SessionProp
prop priority fdu mpu = record {
  priority = priority;
  cycles = fdu ∷ mpu ∷ 0 ∷ 0 ∷ 0 ∷ 0 ∷ 0 ∷ 0 ∷ 0 ∷ [];
  fw_cycles = 10;
  op_cycles = 320 ∷ 0 ∷ 0 ∷ 0 ∷ 0 ∷ 0 ∷ 0 ∷ 0 ∷ 0 ∷ [];
  fw_op_cycles = 0;
  ddr_bw = 1000;
  ddr_op_bw = 4000;
}

-- A realtime session, one that is not, and one that is invalid.
abbrev sessions : List PowerInst
sessions =
    record { state = 5; prop = prop 2 150 40 }
    ∷ record { state = 5; prop = prop 0 60 90 }
    ∷ record { state = 9; prop = prop 2 400 0 }
    ∷ []

abbrev core : PowerCore
core = record {
  instances = sessions;
  allowed_clks_tbl = 200 ∷ 300 ∷ 450 ∷ [];
  curr_freq = 200;
  orig_core_sum = 0;
  bw_sum = 0;
  clk_freq = 200;
}

nrt-InRange : InRange (members true sessions)
unfolding members active maximum total peak block_totals block_peaks
nrt-InRange = omega arith

rt-InRange : InRange (members false sessions)
unfolding members active maximum total peak block_totals block_peaks
rt-InRange = omega arith

aggregate_power_update_lem_example :
    aggregate_power_update sessions no_level no_level 450
    ≡ (demand 450 (members true sessions), demand 450 (members false sessions))
aggregate_power_update_lem_example =
    aggregate_power_update_lem 450 sessions (omega arith) nrt-InRange rt-InRange

adjust_bw_freqs_lem_example :
    Votes 6000 60 core 200
      (300 ∷ 450 ∷ [])
      (demand 450 (members true sessions))
      (demand 450 (members false sessions))
      (adjust_bw_freqs 6000 60 core)
unfolding demand members active total peak block_totals block_peaks maximum
adjust_bw_freqs_lem_example =
    adjust_bw_freqs_lem 6000 60 core 200 (300 ∷ 450 ∷ []) refl (omega arith) (omega arith)
      nrt-InRange rt-InRange (omega arith) (omega arith)

-- The added cycles are 150 + 90, the larger operating point 320.
adjusted :
    adjust_bw_freqs 6000 60 core
    ≡ some (
      success,
      record core { curr_freq = 450; orig_core_sum = 200; bw_sum = 6000; clk_freq = 450 },
    )
unfolding adjust_bw_freqs aggregate_power_update add_insts add_inst add_session counts
    is_subblock_profile_existed raise_level find_max find_max_from to_int core_request op_request
    pick_rate first_at_least clamp_bw
adjusted = refl

abbrev platform : Platform
platform = record {
  valid = true;
  uninit = false;
  opp_enabled = false;
  has_scaling = true;
  buses = record { is_eva_ddr = true; max_bw = 6000 } ∷ [];
  set_clocks = failed eio;
  set_bw = success;
}
