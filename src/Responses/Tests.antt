-- ===== src/Responses/Tests.antt =====
-- The firmware's packets, and the theorems about them, at concrete inputs.
use eva_driver.Prelude.{ℕ, zero, suc, ◌+◌, ◌<◌, ◌≡◌, ◌≢◌, refl, true, some, List, [], ◌∷◌, arith}
use eva_driver.Prelude.Lists.{replicate, get_or, All}
use eva_driver.Prelude.Errno.{e2big}
use eva_driver.Queue.{QueueHeader, QueueInfo}
use eva_driver.Queue.Holds.{wrap}
use eva_driver.Iface.Receive.{HoldsMessages, quiet}
use eva_driver.Messages.{SessionQueue}
use eva_driver.Responses.Status.{map_err_status}
use eva_driver.Responses.{
  Info, sys_error, process_session_init_done, Clients, World, process_event_notify, bad,
}
use eva_driver.Responses.Dispatch.{process_msg_packet, bytes, blanks}
use eva_driver.Responses.Drain.{
  HalSession, response_handler, one_packet, with_address, get_session, is_session, is_no_resp,
  is_sys_error, keep, ends,
}
use eva_driver.Responses.Drain.Delivered.{Collects, collect, response_handler-collects}
use eva_driver.Responses.Drain.Limits.{Limited, response_handler-Limited}

abbrev pub world : World
world = record { locked = true; memory = true; hfi_ver = 2 }

abbrev empty_queue : SessionQueue
empty_queue = record { state = 2; msg_count = 0; msgs = [] }

abbrev pub clients : Clients
clients = record {
  instances =
      record {
        sess_id = 7;
        queues = record { session_queue = empty_queue; session_queue_fence = empty_queue };
        dump_offset = 0;
        dump_size = 0;
      }
      ∷ [];
  fw_version = [];
}

abbrev pub sessions : List HalSession
sessions = record { sess_id = 7; inst = 4096 } ∷ []

-- The session 7 is initialised.
abbrev pub init_done : List ℕ
init_done = 20 ∷ 0x20006 ∷ 7 ∷ 0 ∷ 0 ∷ []

-- A fatal error is that of the hardware.
fatal : map_err_status 1 ≡ 0x80000009
unfolding map_err_status
fatal = refl

too_short : process_event_notify 0 (20 ∷ 0x21001 ∷ 7 ∷ 1 ∷ 1 ∷ []) ≡ bad e2big
unfolding process_event_notify
too_short = refl

-- Zeros in the version are blanks.
version : (blanks (bytes (0x460041 ∷ []))) ≡ 65 ∷ 32 ∷ 70 ∷ 32 ∷ []
unfolding blanks bytes
version = refl

abbrev header : QueueHeader
header = record {
  status = 1;
  start_addr = 4096;
  type = 0x01010001;
  q_size = 8;
  pkt_size = 0;
  pkt_drop_cnt = 0;
  rx_wm = 1;
  tx_wm = 1;
  rx_req = 1;
  tx_req = 0;
  rx_irq_status = 0;
  tx_irq_status = 0;
  read_idx = 0;
  write_idx = 5;
}

abbrev memory : List ℕ
memory = 20 ∷ 0x20006 ∷ 7 ∷ 0 ∷ 0 ∷ 3 ∷ 3 ∷ 3 ∷ []

abbrev pub msgq : QueueInfo
msgq = record { words = some memory; mem_size = 32; device_addr = 4096; hdr = some header }

abbrev pub buffer : List ℕ
buffer = replicate 3072 0

memory-cells : (i : ℕ) → i < 5 → get_or memory (wrap 8 (0 + i)) 0 ≡ get_or init_done i 0
memory-cells zero h = refl
memory-cells (suc zero) h = refl
memory-cells (suc (suc zero)) h = refl
memory-cells (suc (suc (suc zero))) h = refl
memory-cells (suc (suc (suc (suc zero)))) h = refl
memory-cells (suc (suc (suc (suc (suc i))))) h = absurd (omega arith)

pub msgq-HoldsMessages : HoldsMessages msgq 5 (init_done ∷ [])
msgq-HoldsMessages = record {
  words = memory;
  hdr = header;
  words_there = refl;
  hdr_there = refl;
  held = record {
    in_order = record {
      fits = refl;
      read_in = omega arith;
      room = omega arith;
      write_in = refl;
      cells = memory-cells;
    };
    all_packets = omega arith;
    small = omega arith;
  };
  last_is = refl;
}

response_handler-collects_example :
    Collects 5
      (response_handler world sessions true (replicate 2 (quiet 5)) msgq buffer clients)
      (collect world sessions (init_done ∷ []) buffer clients [])
response_handler-collects_example =
    response_handler-collects world sessions 5 (init_done ∷ []) 2 msgq buffer clients (omega arith)
      msgq-HoldsMessages (omega arith)

-- The same run, whose end is then within the limits.
ran :
    Collects 5
      (response_handler world sessions true (replicate 2 (quiet 5)) msgq buffer clients)
      (collect world sessions (init_done ∷ []) buffer clients [])
ran =
    response_handler-collects world sessions 5 (init_done ∷ []) 2 msgq buffer clients (omega arith)
      msgq-HoldsMessages (omega arith)

response_handler-Limited_example : Limited sessions ran.0
response_handler-Limited_example =
    response_handler-Limited world sessions true (replicate 2 (quiet 5)) msgq buffer clients ran.0
      ran.1

-- The packet is no system error.
pub init_done-safe :
    All
      (λ (r : Info). r.response_type ≢ sys_error)
      (collect world sessions (init_done ∷ []) buffer clients []).responses
unfolding collect one_packet process_msg_packet process_session_init_done with_address get_session
    is_session is_no_resp is_sys_error keep ends
init_done-safe = (λ e. cc, tt)
