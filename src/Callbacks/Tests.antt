-- ===== src/Callbacks/Tests.antt =====
-- The callbacks, and the theorems about them, at concrete inputs.
use eva_driver.Prelude.{◌≡◌, refl, true, false, some, [], ◌∷◌, arith}
use eva_driver.Prelude.Lists.{replicate}
use eva_driver.Prelude.Errno.{success}
use eva_driver.Session.{is_success}
use eva_driver.Iface.Receive.{quiet}
use eva_driver.Responses.{ResponseType, Info, session_start_done, sys_error}
use eva_driver.Responses.Drain.Delivered.{collect}
use eva_driver.Responses.Tests.{
  world, clients, sessions, init_done, msgq, buffer, msgq-HoldsMessages, init_done-safe,
}
use eva_driver.Callbacks.{Waiter, Driver, Given, find_waiter}
use eva_driver.Callbacks.Thread.{callbacks, work_handler}
use eva_driver.Callbacks.Told.{Told, Live}
use eva_driver.Callbacks.Answered.{work_handler-Told}
use eva_driver.Callbacks.Broken.{Broken, callbacks-Broken}

abbrev waiter : Waiter
waiter = record {
  address = 4096;
  session = 8;
  kref = 1;
  state = 4;
  hfi_error_code = 0;
  session_error_code = 0;
  event = 0;
  completions = [];
}

abbrev driver : Driver
driver = record {
  waiters = waiter ∷ [];
  init_completions = 0;
  max_inst_count = 16;
  max_secure_inst_count = 16;
  max_supported_inst_count = 16;
  error_count = 0;
  ssr_count = 0;
  core_unused = false;
  device_valid = true;
}

abbrev given : Given
given = record { max_sessions_supported = 16; has_device = true; core_release = success }

abbrev response : ResponseType → Info
response type = record {
  response_type = type;
  device_id = 0;
  session_id = 4096;
  status = 0;
  size = 0;
}

waiter-Live : Live 4096 driver waiter
unfolding find_waiter
waiter-Live = record {
  found = refl;
  real = λ e. omega (arith, e);
  has_session = λ e. omega (arith, e);
  referenced = λ e. omega (arith, e);
}

callbacks-Broken_example :
    let c' = callbacks given (response sys_error ∷ response session_start_done ∷ []) driver in
    (c'.device_valid ≡ false)
    × (c'.core_unused ≡ is_success success)
    × (j : Waiter) × (find_waiter 4096 c'.waiters ≡ some j)
    × Broken driver waiter j
callbacks-Broken_example =
    callbacks-Broken given (response sys_error) (response session_start_done ∷ []) driver 4096
      waiter refl refl refl refl waiter-Live.found

work_handler-Told_example :
    (c' : Driver) × (j : Waiter) × (work_handler
        (record { has_callback = true; powered = true })
        given
        world
        sessions
        true
        (replicate 2 (quiet 5))
        msgq
        buffer
        clients
        driver
      ≡ some c')
    × (find_waiter 4096 c'.waiters ≡ some j)
    × Told 4096 (collect world sessions (init_done ∷ []) buffer clients []).responses waiter j
work_handler-Told_example =
    work_handler-Told (record { has_callback = true; powered = true }) given world sessions 5
      (init_done ∷ []) 2 msgq buffer clients driver 4096 waiter (omega arith) msgq-HoldsMessages
      (omega arith) refl refl refl waiter-Live init_done-safe
