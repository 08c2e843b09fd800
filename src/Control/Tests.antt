-- ===== src/Control/Tests.antt =====
-- The control of a session's queues, and the theorems about it, at concrete inputs.
use eva_driver.Prelude.{◌+◌, ◌*◌, ◌≤◌, ◌≡◌, ◌↔◌, refl, true, false, none, [], ◌∷◌}
use eva_driver.Prelude.Errno.{success, failed, etimedout}
use eva_driver.Control.{
  Control, Thread, Answers, Command, session_stop, session_flush_stop, stop_thread,
  fence_thread_stop, is_buf_param_valid, session_process_hfi, buf_params, packet_size, buf_size,
}
use eva_driver.Control.Stop.{Stops, session_stop-Stops}
use eva_driver.Control.Send.{IsAllowed, is_buf_param_valid_lem, session_process_hfi-IsAllowed}

abbrev control : Control
control = record {
  state = 2;
  msg_count = 0;
  fence_state = 2;
  cmd_state = 2;
  fthread_nr = 2;
  threads = 2;
  refs = 3;
}

abbrev answers : Answers
answers = record {
  valid = true;
  spawns = (true, Thread.running) ∷ (true, Thread.err_ptr) ∷ [];
  session_start = success;
  start_done = failed etimedout;
  session_stop = success;
  stop_done = failed etimedout;
  flush_valid = true;
  flush_all = success;
  flush_stop = success;
  flush_stop_done = success;
}

abbrev command : Command
command = record {
  known = true;
  no_response = true;
  is_config_pkt = false;
  in_offset = 10;
  in_buf_num = 4;
  proc_oob = success;
  enqueue = success;
}

-- The firmware does not answer the stop, and the flush is tried.
session_stop-Stops_example :
    let (rc, c', count) = session_stop answers control in Stops control rc c' × (c'.refs ≡ 3)
session_stop-Stops_example = session_stop-Stops answers control

stopped :
    session_stop answers control
    ≡ (success, record control { state = 3; fence_state = 3; cmd_state = 3 }, none)
unfolding session_stop session_flush_stop stop_thread fence_thread_stop
stopped = refl

is_buf_param_valid_lem_example :
    (is_buf_param_valid 54 8 ≡ true) ↔ (8 * 4 + 54 * buf_size ≤ packet_size)
is_buf_param_valid_lem_example = is_buf_param_valid_lem 54 8

session_process_hfi-IsAllowed_example :
    IsAllowed true 5 control command 10 4
    × ((session_process_hfi true 5 control command).0 ≡ success)
unfolding session_process_hfi buf_params is_buf_param_valid
session_process_hfi-IsAllowed_example =
    session_process_hfi-IsAllowed true 5 control command 10 4 refl

-- A command of a type that the driver does not know is dropped, and the client is told that it was
-- sent.
dropped : session_process_hfi true 5 control (record command { known = false }) ≡ (success, none)
unfolding session_process_hfi
dropped = refl
