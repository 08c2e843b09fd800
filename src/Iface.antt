-- ===== src/Iface.antt =====
-- The three HFI queues of the device: their set-up in shared memory, and the functions of
-- msm/eva/cvp_hfi.c through which the driver writes commands and reads messages. Log lines and
-- traces are left out, and so is the work that lets the device's power collapse later.
mod Setup
pub mod Send
pub mod Receive
mod Tests
use eva_driver.Prelude.{
  ℕ, ◌+◌, ◌*◌, ◌/◌, ◌%◌, Bool, true, false, not, ◌&&◌, ◌||◌, Option, none, some, List, [], ◌∷◌,
}
use eva_driver.Prelude.Tests.{◌==◌, if◌then◌else◌}
use eva_driver.Prelude.Lists.{get_or}
use eva_driver.Prelude.Words.{add32}
use eva_driver.Prelude.Errno.{Rc, success, failed, einval, e2big, enodata}
use eva_driver.Memory.{slice}
use eva_driver.Session.{is_success}
use eva_driver.Queue.{QueueHeader, QueueInfo, Peer, write_queue, read_queue}

-- `sizeof(struct cvp_hfi_queue_table_header)` and `sizeof(struct cvp_hfi_queue_header)`.
abbrev pub table_header_size : ℕ
table_header_size = 288

abbrev pub queue_header_size : ℕ
queue_header_size = 56

-- `CVP_IFACEQ_TABLE_SIZE`, `CVP_IFACEQ_QUEUE_SIZE` and the size that `__interface_queues_init`
-- allocates for both, in bytes.
abbrev pub table_size : ℕ
table_size = 456

abbrev pub queue_size : ℕ
queue_size = 819200

abbrev pub region_size : ℕ
region_size = 3141632

-- A queue, and where its memory and its header are, in bytes from the start of the region.
pub record Placed : Type 0 where
  pub at : ℕ
  pub header_at : ℕ
  pub queue : QueueInfo

-- `__set_queue_hdr_defaults`: the start address and the count of dropped packets stay.
pub set_queue_hdr_defaults : QueueHeader → QueueHeader
set_queue_hdr_defaults h = record h {
  status = 1;
  type = 0x01010000;
  q_size = queue_size / 4;
  pkt_size = 0;
  rx_wm = 1;
  tx_wm = 1;
  rx_req = 1;
  tx_req = 0;
  rx_irq_status = 0;
  tx_irq_status = 0;
  read_idx = 0;
  write_idx = 0;
}

-- The loop of `__hfi_queue_init`, over the headers that the region held before.
pub place_queues : List ℕ → ℕ → ℕ → ℕ → List QueueHeader → List Placed
place_queues region device_addr i offset [] = []
place_queues region device_addr i offset (h ∷ hs) =
    record {
      at = offset;
      header_at = table_header_size + i * queue_header_size;
      queue = record {
        words = some (slice region (offset / 4) (queue_size / 4));
        mem_size = queue_size;
        device_addr = add32 device_addr offset;
        hdr = some (set_queue_hdr_defaults h);
      };
    }
    ∷ place_queues region device_addr (i + 1) (offset + queue_size) hs

-- What is put into a queue's header behind the loop: the address, and the number of the queue in the
-- bits of the type that are still 0.
pub name_queue : ℕ → Placed → Placed
name_queue id p = elim p.queue.hdr [
  | none ↦ p
  | some h ↦ record p {
    queue = record p.queue {
      hdr = some (record h { start_addr = p.queue.device_addr; type = h.type + id });
    };
  }
]

-- No interrupts for debug messages.
pub quiet_queue : Placed → Placed
quiet_queue p = elim p.queue.hdr [
  | none ↦ p
  | some h ↦ record p { queue = record p.queue { hdr = some (record h { rx_req = 0 }) } }
]

-- The device's queues: `iface_queues`.
pub record DeviceQueues : Type 0 where
  pub cmdq : Placed
  pub msgq : Placed
  pub dbgq : Placed

-- `__hfi_queue_init` on a region of words with three headers in its table. The table's own header
-- is left out: its fields are these sizes and numbers.
pub hfi_queue_init : List ℕ → ℕ → QueueHeader → QueueHeader → QueueHeader → Option DeviceQueues
hfi_queue_init region device_addr h0 h1 h2 =
    elim (place_queues region device_addr 0 table_size (h0 ∷ h1 ∷ h2 ∷ [])) [
      | c ∷ m ∷ d ∷ rest ↦ some (record {
        cmdq = name_queue 0 c;
        msgq = name_queue 1 m;
        dbgq = quiet_queue (name_queue 2 d);
      })
      | _ ↦ none
    ]

-- What the driver keeps of the device: whether the core is in a valid state, the command queue, the
-- type of the last packet, and the read index as it was at the last two interrupts.
pub record Device : Type 0 where
  pub valid : Bool
  pub cmdq : QueueInfo
  pub last_packet_type : ℕ
  pub cur_read_offset : ℕ
  pub prev_read_offset : ℕ

abbrev put_cmdq : Option QueueInfo → Device → Device
put_cmdq none dev = dev
put_cmdq (some q) dev = record dev { cmdq = q }

-- `__iface_cmdq_write_relaxed`, given what `__resume` returns: the code, whether the firmware wants
-- an interrupt, and the device. `none` is an access outside the queue or the packet.
pub cmdq_write_relaxed : Rc → List ℕ → Device → Option (Rc × Bool × Device)
cmdq_write_relaxed resumed packet dev =
    if not dev.valid then some (failed einval, false, dev) else elim dev.cmdq.words [
      | none ↦ some (failed enodata, false, typed)
      | some words ↦
          if not (is_success resumed)
          then some (failed e2big, false, typed)
          else elim (write_queue (some dev.cmdq) (some packet)) [
            | none ↦ none
            | some (rc, q, wanted) ↦ some (
              if is_success rc then success else failed e2big,
              elim wanted [ none ↦ false | some b ↦ b ],
              put_cmdq q typed,
            )
          ]
    ]
  where
    typed : Device
    typed = record dev { last_packet_type = get_or packet 1 0 }

-- The read index is noted at each interrupt.
note_read_offset : Device → Device
note_read_offset dev = elim dev.cmdq.hdr [
  | none ↦ dev
  | some h ↦
      if dev.prev_read_offset == h.read_idx
      then record dev { cur_read_offset = h.read_idx }
      else record dev { cur_read_offset = h.read_idx; prev_read_offset = h.read_idx }
]

-- `__iface_cmdq_write`, and whether it raised the interrupt of the firmware.
pub cmdq_write : Rc → List ℕ → Device → Option (Rc × Bool × Device)
unfolding note_read_offset
cmdq_write resumed packet dev = elim (cmdq_write_relaxed resumed packet dev) [
  | none ↦ none
  | some (rc, wanted, dev') ↦
      if is_success rc && wanted
      then some (success, true, note_read_offset dev')
      else some (rc, false, dev')
]

abbrev or_queue : QueueInfo → Option QueueInfo → QueueInfo
or_queue q none = q
or_queue q (some q') = q'

abbrev or_buffer : List ℕ → Option (List ℕ) → List ℕ
or_buffer b none = b
or_buffer b (some b') = b'

-- `__iface_dbgq_read`: the code, whether the firmware was sent an interrupt, the queue and the
-- packet buffer.
pub dbgq_read : Peer → List ℕ → QueueInfo → Option (Rc × Bool × QueueInfo × List ℕ)
dbgq_read peer buffer q = elim q.words [
  | none ↦ some (failed enodata, false, q, buffer)
  | some words ↦ elim (read_queue (some q) peer (some buffer)) [
    | none ↦ none
    | some (rc, q', buffer', tx_req) ↦ some (
      if is_success rc then success else failed enodata,
      is_success rc && elim tx_req [ none ↦ false | some n ↦ not (n == 0) ],
      or_queue q q',
      or_buffer buffer buffer',
    )
  ]
]

-- `__iface_msgq_read`, given whether the core is in a valid state.
pub msgq_read : Bool → Peer → List ℕ → QueueInfo → Option (Rc × Bool × QueueInfo × List ℕ)
msgq_read valid peer buffer q =
    if not valid then some (failed einval, false, q, buffer) else dbgq_read peer buffer q
