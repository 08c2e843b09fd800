-- ===== src/Session/Tests.antt =====
-- The session's state machine and its theorems at concrete inputs.
use eva_driver.Prelude.{ℕ, ◌≡◌, refl, inl, true, false, some, [], ◌∷◌, arith}
use eva_driver.Prelude.Errno.{success, failed, etimedout}
use eva_driver.Session.{
  Sys, World, completed, timed_out, Timeout, handle_session_timeout, CoreState, change_inst_state,
  handle_sys_error, settle, wait_for_receipt, wait_for_state, reached, get_flipped_state,
}
use eva_driver.Session.Stages.{session_init, session_init_done}
use eva_driver.Session.Machine.{open_done_handler, open_handler, state_result_check, try_state}
use eva_driver.Session.Steps.{Moves}
use eva_driver.Session.Moves.{try_state-Moves}
use eva_driver.Session.Good.{IsGood}
use eva_driver.Session.Reach.{try_state-reaches}

abbrev good_world : World
good_world = record {
  alloc_capabilities = true;
  hfi_core_init = success;
  sys_init_done = true;
  hfi_session_init = success;
  new_session = true;
  session_init_done = completed 0;
  hfi_session_end = success;
  session_end_done = completed 0;
  hfi_core_release = success;
}

good_world-IsGood : IsGood good_world
good_world-IsGood = record {
  capabilities = refl;
  core_inits = refl;
  sys_init = refl;
  session_inits = refl;
  session = refl;
  opens = refl;
  session_end = refl;
  ended = refl;
}

abbrev in_state : ℕ → Sys
in_state k = record {
  inst = record {
    state = k;
    session = false;
    hfi_error_code = 0;
    prev_hfi_error_code = 0;
    event = false;
    visited = [];
  };
  core = record {
    state = CoreState.init_done;
    capabilities = true;
    trigger_ssr = false;
    ssr_count = 0;
  };
}

-- The firmware hangs while a session is opened, and the device layer is released.
hung :
    (try_state (record good_world { session_init_done = timed_out Timeout.hung }) 5 (in_state 3)
      ≡ some (
        failed etimedout,
        record (in_state 9) {
          inst = record (in_state 9).inst { session = true; event = true; visited = 4 ∷ 3 ∷ [] };
          core = record (in_state 9).core { state = CoreState.uninit; ssr_count = 1 };
        },
      ))
unfolding try_state get_flipped_state open_handler open_done_handler session_init session_init_done
    wait_for_state wait_for_receipt handle_session_timeout settle handle_sys_error change_inst_state
    reached state_result_check
hung = refl

try_state-Moves_example : Moves 3 [] 9 (4 ∷ 3 ∷ [])
unfolding try_state get_flipped_state open_handler open_done_handler session_init session_init_done
    wait_for_state wait_for_receipt handle_session_timeout settle handle_sys_error change_inst_state
    reached state_result_check
try_state-Moves_example =
    try_state-Moves (record good_world { session_init_done = timed_out Timeout.hung }) 5
      (in_state 3) _ (omega arith) hung

try_state-reaches_example :
    (s' : Sys) × (try_state good_world 5 (in_state 1) ≡ some (success, s')) × (s'.inst.state ≡ 5)
try_state-reaches_example =
    try_state-reaches good_world 5 (in_state 1) good_world-IsGood (omega arith) (omega arith)
      (omega arith) (inl (omega arith))
