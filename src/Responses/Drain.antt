-- ===== src/Responses/Drain.antt =====
-- `__response_handler` of msm/eva/cvp_hfi.c: the packets of the message queue, one after another, and
-- the responses that the driver then hands to its callbacks. The handling of a fatal interrupt, the
-- print of the firmware's last words and the debug queue are left out.
pub mod Delivered
pub mod Limits
use eva_driver.Prelude.{
  ℕ, Bool, true, false, not, ◌||◌, ◌&&◌, Option, none, some, List, [], ◌∷◌, ◌++◌,
}
use eva_driver.Prelude.Tests.{leb, ◌==◌, if◌then◌else◌}
use eva_driver.Prelude.Lists.{length}
use eva_driver.Session.{is_success}
use eva_driver.Queue.{QueueInfo, Peer}
use eva_driver.Iface.{msgq_read}
use eva_driver.Responses.{
  ResponseType, Info, Handled, Clients, World, ok, bad, no_resp, sys_init_done, sys_error,
  session_init_done, session_end_done, session_set_buffer_done, session_abort_done,
  session_start_done, session_stop_done, session_flush_done, session_release_buffer_done,
  session_dump_notify, session_error, response_unused,
}
use eva_driver.Responses.Dispatch.{process_msg_packet}

-- `cvp_max_packets`, the length of the array of responses.
abbrev pub max_packets : ℕ
max_packets = 32

-- `struct cvp_hal_session` in the device's list: the number and the address of its instance.
pub record HalSession : Type 0 where
  pub sess_id : ℕ
  pub inst : ℕ

-- `__get_session`.
unfoldable pub get_session : ℕ → List HalSession → Option HalSession
get_session id [] = none
get_session id (s ∷ ss) = elim (id == s.sess_id) [ true ↦ some s | false ↦ get_session id ss ]

-- The types for which `get_session_id` is not null.
unfoldable pub is_session : ResponseType → Bool
is_session no_resp = false
is_session sys_init_done = false
is_session sys_error = false
is_session response_unused = false
is_session session_init_done = true
is_session session_end_done = true
is_session session_set_buffer_done = true
is_session session_abort_done = true
is_session session_start_done = true
is_session session_stop_done = true
is_session session_flush_done = true
is_session session_release_buffer_done = true
is_session session_dump_notify = true
is_session session_error = true

unfoldable pub is_no_resp : ResponseType → Bool
is_no_resp no_resp = true
is_no_resp _ = false

unfoldable pub is_sys_error : ResponseType → Bool
is_sys_error sys_error = true
is_sys_error _ = false

-- The number of the session becomes the address of its instance; a response for a session that the
-- device does not have is dropped.
unfoldable pub with_address : List HalSession → Info → Option Info
with_address sessions info =
    if is_session info.response_type
    then elim (get_session info.session_id sessions) [
      | none ↦ none
      | some s ↦ some (record info { session_id = s.inst })
    ]
    else some info

-- One round of the loop behind the read: the response that is kept, if one is.
unfoldable pub one_packet : World → List HalSession → List ℕ → Clients → Option Info × Clients
unfolding with_address
one_packet w sessions raw c =
    let r = process_msg_packet w 0 raw c in
    (
      elim r.0 [
        | bad e ↦ none
        | ok info ↦ if is_no_resp info.response_type then none else with_address sessions info
      ],
      r.1,
    )

unfoldable pub keep : List Info → Option Info → List Info
keep responses none = responses
keep responses (some info) = responses ++ (info ∷ [])

-- Whether the loop ends behind a packet: the array is full, or the system has failed.
unfoldable pub ends : List Info → Option Info → Bool
ends responses none = false
ends responses (some info) =
    leb max_packets (length (responses ++ (info ∷ []))) || is_sys_error info.response_type

pub record Loop : Type 0 where
  pub queue : QueueInfo
  pub raw : List ℕ
  pub clients : Clients
  pub responses : List Info

-- How the loop ends: with a result, with an access outside the queue or the buffer, or not within
-- the rounds that are given.
pub data Drained : Type 0 where
  drained : Loop → Drained
  fault out_of_rounds : Drained

-- The loop, for the values of the firmware's write index that each of its reads sees. The core is in
-- a valid state throughout.
pub drain : World → List HalSession → List Peer → Loop → Drained
unfolding one_packet keep ends
drain w sessions [] l = out_of_rounds
drain w sessions (p ∷ ps) l = elim (msgq_read true p l.raw l.queue) [
  | none ↦ fault
  | some (rc, rung, q, raw) ↦ elim (is_success rc) [
    | false ↦ drained (record l { queue = q; raw = raw })
    | true ↦
        let r = one_packet w sessions raw l.clients in
        let l' : Loop = record {
          queue = q;
          raw = raw;
          clients = r.1;
          responses = keep l.responses r.0;
        } in
        elim (ends l.responses r.0) [ true ↦ drained l' | false ↦ drain w sessions ps l' ]
  ]
]

-- `__response_handler`, given whether the device is in its initial state.
pub response_handler :
    World → List HalSession → Bool → List Peer → QueueInfo → List ℕ → Clients → Drained
response_handler w sessions init peers q raw c =
    let start : Loop = record { queue = q; raw = raw; clients = c; responses = [] } in
    if not init then drained start else drain w sessions peers start
