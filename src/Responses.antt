-- ===== src/Responses.antt =====
-- What the firmware's messages mean to the driver: msm/eva/hfi_response_handler.c takes a packet
-- apart, and Responses/Drain is the loop of msm/eva/cvp_hfi.c that does so for each packet of the
-- message queue. A raw packet is its buffer's words, in the layout of msm/eva/cvp_hfi_v1.h. Log
-- lines are left out, and so are the number that is parsed from the firmware's version string and
-- the union of further data in a response.
pub mod Dispatch
mod Status
pub mod Drain
pub mod Tests
use eva_driver.Prelude.{
  ℕ, ◌+◌, ◌*◌, ◌/◌, ◌%◌, ◌^◌, Bool, true, false, not, ◌&&◌, ◌||◌, Option, none, some, List, [], ◌∷◌,
  ◌++◌,
}
use eva_driver.Prelude.Tests.{ltb, ◌==◌, if◌then◌else◌}
use eva_driver.Prelude.Lists.{get_or, set}
use eva_driver.Prelude.Errno.{Errno, Rc, success, failed, hfi_error, einval, e2big, enotsupp, eio}
use eva_driver.Memory.{slice}
use eva_driver.Messages.{Queues, Incoming, process_session_msg}
use eva_driver.Responses.Status.{map_err_status}

-- `enum hal_command_response`, those that the driver makes.
pub data ResponseType : Type 0 where
  no_resp sys_init_done sys_error : ResponseType
  session_init_done session_end_done session_set_buffer_done session_abort_done : ResponseType
  session_start_done session_stop_done session_flush_done : ResponseType
  session_release_buffer_done session_dump_notify session_error response_unused : ResponseType

-- `struct msm_cvp_cb_info`, with the fields of its `struct msm_cvp_cb_cmd_done`.
pub record Info : Type 0 where
  pub response_type : ResponseType
  pub device_id : ℕ
  pub session_id : ℕ
  pub status : ℕ
  pub size : ℕ

-- What a handler returns: a response, or an error code.
pub data Handled : Type 0 where
  ok : Info → Handled
  bad : Errno → Handled

-- `struct msm_cvp_inst`: what the handlers use of an instance in the core's list.
pub record Client : Type 0 where
  pub sess_id : ℕ
  pub queues : Queues
  pub dump_offset : ℕ
  pub dump_size : ℕ

-- The core's instances, and the version of the firmware as text.
pub record Clients : Type 0 where
  pub instances : List Client
  pub fw_version : List ℕ

-- What decides beside the packet: whether the core's lock is got in time, whether there is memory
-- for a message, and the version of the packets' layout.
pub record World : Type 0 where
  pub locked : Bool
  pub memory : Bool
  pub hfi_ver : ℕ

-- The fields that all packets have.
abbrev pub size_word : List ℕ → ℕ
size_word raw = get_or raw 0 0

abbrev pub type_word : List ℕ → ℕ
type_word raw = get_or raw 1 0

abbrev no_info : Info
no_info = record {
  response_type = response_unused;
  device_id = 0;
  session_id = 0;
  status = 0;
  size = 0;
}

-- `hfi_process_sys_error` and `hfi_process_session_error`: the two words of event data are the
-- words 4 and 5 of the packet.
pub process_sys_error : ℕ → List ℕ → Handled
process_sys_error device raw = ok (record no_info {
  response_type = sys_error;
  device_id = device;
  status = map_err_status (get_or raw 4 0);
})

pub process_session_error : ℕ → List ℕ → Handled
process_session_error device raw = ok (record {
  response_type =
      if get_or raw 4 0 == 0x1012 || get_or raw 4 0 == 0x1013
      then response_unused
      else session_error;
  device_id = device;
  session_id = get_or raw 2 0;
  status = map_err_status (get_or raw 4 0);
  size = get_or raw 5 0;
})

-- `hfi_process_event_notify`.
pub process_event_notify : ℕ → List ℕ → Handled
unfolding process_sys_error process_session_error
process_event_notify device raw =
    if ltb (size_word raw) 24
    then bad e2big
    else if get_or raw 3 0 == 1
    then process_sys_error device raw
    else if get_or raw 3 0 == 2
    then process_session_error device raw
    else ok no_info

-- `hfi_process_sys_init_done`: the error counts only where there are properties.
pub process_sys_init_done : ℕ → List ℕ → Handled
process_sys_init_done device raw =
    if ltb (size_word raw) 16
    then bad e2big
    else ok (record no_info {
      response_type = sys_init_done;
      device_id = device;
      status = if get_or raw 3 0 == 0 then 0 else map_err_status (get_or raw 2 0);
      size = 32;
    })

-- A response to a command of the session that word 2 names, with the error of word 3.
abbrev pub done_info : ResponseType → ℕ → List ℕ → ℕ → Info
done_info type device raw size = record {
  response_type = type;
  device_id = device;
  session_id = get_or raw 2 0;
  status = map_err_status (get_or raw 3 0);
  size = size;
}

-- `hfi_process_session_init_done`.
pub process_session_init_done : ℕ → List ℕ → Handled
process_session_init_done device raw =
    if ltb (size_word raw) 20 then bad e2big else ok (done_info session_init_done device raw 732)

-- `hfi_process_session_end_done`.
pub process_session_end_done : ℕ → List ℕ → Handled
process_session_end_done device raw =
    if not (size_word raw == 16) then bad e2big else ok (done_info session_end_done device raw 0)

-- `hfi_process_session_abort_done`.
pub process_session_abort_done : ℕ → List ℕ → Handled
process_session_abort_done device raw =
    if not (size_word raw == 16) then bad e2big else ok (done_info session_abort_done device raw 0)

-- `hfi_process_session_set_buf_done`.
pub process_session_set_buf_done : ℕ → List ℕ → Handled
process_session_set_buf_done device raw =
    if ltb (size_word raw) 48
    then bad e2big
    else ok (done_info session_set_buffer_done device raw 0)

-- `hfi_process_session_rel_buf_done`.
pub process_session_rel_buf_done : ℕ → List ℕ → Handled
process_session_rel_buf_done device raw =
    if ltb (size_word raw) 48
    then bad e2big
    else ok (done_info session_release_buffer_done device raw 0)

-- `hfi_process_session_flush_done`.
pub process_session_flush_done : ℕ → List ℕ → Handled
process_session_flush_done device raw =
    if ltb (size_word raw) 44 then bad e2big else ok (done_info session_flush_done device raw 0)

-- `hfi_process_session_start_done`.
pub process_session_start_done : ℕ → List ℕ → Handled
process_session_start_done device raw =
    if ltb (size_word raw) 44 then bad e2big else ok (done_info session_start_done device raw 0)

-- `hfi_process_session_stop_done`.
pub process_session_stop_done : ℕ → List ℕ → Handled
process_session_stop_done device raw =
    if ltb (size_word raw) 44 then bad e2big else ok (done_info session_stop_done device raw 0)
