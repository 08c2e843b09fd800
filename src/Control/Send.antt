-- ===== src/Control/Send.antt =====
-- Which commands of a client reach the firmware (`msm_cvp_session_process_hfi`, msm/eva/msm_cvp.c;
-- `is_buf_param_valid`, msm/eva/msm_cvp.h).
use eva_driver.Prelude.{ℕ, ◌+◌, ◌*◌, ◌≤◌, ◌≡◌, ◌≢◌, ◌↔◌, Bool, true, false, some, arith}
use eva_driver.Prelude.Errno.{success}
use eva_driver.Control.{
  Control, Command, packet_size, buf_size, is_buf_param_valid, session_process_hfi,
}

-- The test of a command's buffers accepts exactly those that lie within the packet, also where the
-- offset or the number is as large as a `u32` can be.
pub is_buf_param_valid_lem :
    (buf_num offset : ℕ)
    → (is_buf_param_valid buf_num offset ≡ true) ↔ (offset * 4 + buf_num * buf_size ≤ packet_size)
unfolding is_buf_param_valid
is_buf_param_valid_lem buf_num offset = ground arith

-- What holds of a command that is handed on.
pub record IsAllowed (valid : Bool) (inst_state : ℕ) (c : Control) (p : Command)
    (offset buf_num : ℕ) : Type 0 where
  pub session : valid ≡ true
  pub alive : inst_state ≢ 9
  pub queue : c.state ≤ 3
  pub known : p.known ≡ true
  pub started : p.no_response ≡ true → p.is_config_pkt ≡ false → c.state ≡ 2
  pub inside : offset * 4 + buf_num * buf_size ≤ packet_size
  pub oob : p.proc_oob ≡ success

-- A command that is handed on to the firmware's queue is of a known type, comes from a valid session
-- whose queue is not invalid, and started if it is a frame that gets no response; its buffers lie
-- within the packet. The code is then that of the enqueueing.
pub session_process_hfi-IsAllowed :
    (valid : Bool) (inst_state : ℕ) (c : Control) (p : Command) (offset buf_num : ℕ)
    → (session_process_hfi valid inst_state c p).1 ≡ some (offset, buf_num)
    → IsAllowed valid inst_state c p offset buf_num
      × ((session_process_hfi valid inst_state c p).0 ≡ p.enqueue)
unfolding session_process_hfi
session_process_hfi-IsAllowed valid inst_state c p offset buf_num e =
    let i : (is_buf_param_valid buf_num offset ≡ true)
        × ((session_process_hfi valid inst_state c p).0 ≡ p.enqueue) =
      ground arith in
    (
      record {
        session = ground arith;
        alive = ground arith;
        queue = ground arith;
        known = ground arith;
        started = ground arith;
        inside = (is_buf_param_valid_lem buf_num offset).0 i.0;
        oob = ground arith;
      },
      i.1,
    )
