-- ===== src/Responses/Dispatch.antt =====
-- The packets that concern an instance, and the dispatch on the type of a packet
-- (msm/eva/hfi_response_handler.c).
use eva_driver.Prelude.{
  ℕ, ◌+◌, ◌*◌, ◌/◌, ◌%◌, ◌^◌, true, false, not, ◌||◌, Option, none, some, List, [], ◌∷◌,
}
use eva_driver.Prelude.Tests.{ltb, ◌==◌, if◌then◌else◌}
use eva_driver.Prelude.Lists.{get_or, set}
use eva_driver.Prelude.Errno.{Rc, success, failed, hfi_error, einval, e2big, enotsupp, eio}
use eva_driver.Memory.{slice}
use eva_driver.Messages.{Incoming, process_session_msg}
use eva_driver.Responses.Status.{map_err_status}
use eva_driver.Responses.{
  no_resp, session_dump_notify, Handled, ok, bad, Client, Clients, World, size_word, type_word,
  no_info, process_event_notify, process_sys_init_done, process_session_init_done,
  process_session_end_done, process_session_abort_done, process_session_set_buf_done,
  process_session_rel_buf_done, process_session_flush_done, process_session_start_done,
  process_session_stop_done,
}

-- `cvp_get_inst_from_id` finds the first instance with that number, unless it is 0. The references
-- that the handlers take are put again by them.
pub find_client : ℕ → List Client → Option Client
find_client id [] = none
find_client id (k ∷ ks) = elim (k.sess_id == id) [ true ↦ some k | false ↦ find_client id ks ]

pub put_client : ℕ → Client → List Client → List Client
put_client id k' [] = []
put_client id k' (k ∷ ks) = elim (k.sess_id == id) [
  | true ↦ k' ∷ ks
  | false ↦ k ∷ put_client id k' ks
]

pub client_from_id : World → ℕ → Clients → Option Client
client_from_id w id c =
    if id == 0 then none else if not w.locked then none else find_client id c.instances

-- `hfi_process_session_dump_notify`.
pub process_session_dump_notify : World → ℕ → List ℕ → Clients → Handled × Clients
process_session_dump_notify w device raw c =
    if not (size_word raw == 56)
    then (bad (if ltb 56 (size_word raw) then e2big else einval), c)
    else elim (client_from_id w (get_or raw 2 0) c) [
      | none ↦ (bad einval, c)
      | some k ↦ (
        ok (record {
          response_type = session_dump_notify;
          device_id = device;
          session_id = get_or raw 2 0;
          status = map_err_status (get_or raw 11 0);
          size = 0;
        }),
        record c {
          instances =
              put_client (get_or raw 2 0)
                (record k { dump_offset = get_or raw 12 0; dump_size = get_or raw 13 0 })
                c.instances;
        },
      )
    ]

-- The message of a session: `get_msg_size` does not depend on its kind, since the two layouts have
-- the same size. `kdata` is at word 6, and at word 7 in the old layout.
pub incoming : World → List ℕ → Incoming
incoming w raw = record {
  size = size_word raw;
  msg_size = 48;
  msg = record {
    kdata =
        let at : ℕ = if w.hfi_ver == 1 then 7 else 6 in
        get_or raw at 0 + get_or raw (at + 1) 0 * 2 ^ 32;
    body = slice raw 0 12;
  };
}

abbrev pub handled : Rc → Handled
handled success = ok (record no_info { response_type = no_resp })
handled (failed e) = bad e
handled (hfi_error n) = bad eio

-- `hfi_process_session_cvp_msg`, into the queues of the session.
pub process_cvp_msg : World → List ℕ → Clients → Handled × Clients
process_cvp_msg w raw c =
    let id = get_or raw 2 0 in
    elim (client_from_id w id c) [
      | none ↦ (handled (process_session_msg w.memory (incoming w raw) none).0, c)
      | some k ↦
          let r = process_session_msg w.memory (incoming w raw) (some k.queues) in
          (
            handled r.0,
            elim r.1 [
              | none ↦ c
              | some qs ↦ record c {
                instances = put_client id (record k { queues = qs }) c.instances;
              }
            ],
          )
    ]

-- The bytes of a list of words, and the version text: 128 bytes, zeros as blanks, with a zero at its
-- end.
unfoldable pub bytes : List ℕ → List ℕ
bytes [] = []
bytes (x ∷ xs) = x % 256 ∷ x / 256 % 256 ∷ x / 65536 % 256 ∷ x / 16777216 % 256 ∷ bytes xs

unfoldable pub blanks : List ℕ → List ℕ
blanks [] = []
blanks (x ∷ xs) = (if x == 0 then 32 else x) ∷ blanks xs

-- `hfi_process_sys_get_prop_image_version`.
pub get_prop_image_version : List ℕ → Clients → Clients
get_prop_image_version raw c =
    if get_or raw 4 0 == 0 || ltb 1 (get_or raw 2 0)
    then c
    else record c { fw_version = set (blanks (bytes (slice raw 4 32))) 127 0 }

-- `hfi_process_sys_property_info`: property 6 is the version.
pub process_sys_property_info : List ℕ → Clients → Handled × Clients
process_sys_property_info raw c =
    if ltb 524 (size_word raw)
    then (bad e2big, c)
    else if get_or raw 2 0 == 0
    then (bad einval, c)
    else if get_or raw 3 0 == 6
    then (ok no_info, get_prop_image_version raw c)
    else (bad enotsupp, c)

-- `cvp_hfi_process_msg_packet`.
unfoldable pub process_msg_packet : World → ℕ → List ℕ → Clients → Handled × Clients
process_msg_packet w device raw c =
    if ltb (size_word raw) 8
    then (bad einval, c)
    else if type_word raw == 0x21001
    then (process_event_notify device raw, c)
    else if type_word raw == 0x20001
    then (process_sys_init_done device raw, c)
    else if type_word raw == 0x20006
    then (process_session_init_done device raw, c)
    else if type_word raw == 0x2000a
    then process_sys_property_info raw c
    else if type_word raw == 0x20007
    then (process_session_end_done device raw, c)
    else if type_word raw == 0x4021001
    then (process_session_set_buf_done device raw, c)
    else if type_word raw == 0x4021002
    then (process_session_rel_buf_done device raw, c)
    else if type_word raw == 0x2000c
    then (process_session_abort_done device raw, c)
    else if type_word raw == 0x402104a
    then (process_session_flush_done device raw, c)
    else if type_word raw == 0x4021058
    then (process_session_start_done device raw, c)
    else if type_word raw == 0x4021059
    then (process_session_stop_done device raw, c)
    else if type_word raw == 0x4021047
    then process_session_dump_notify w device raw c
    else process_cvp_msg w raw c
