-- ===== src/Iface/Setup.antt =====
-- The queues as `__hfi_queue_init` (msm/eva/cvp_hfi.c) leaves them.
use eva_driver.Prelude.{ℕ, ◌+◌, ◌/◌, ◌%◌, ◌^◌, ◌≤◌, ◌≡◌, refl, some, List, [], arith}
use eva_driver.Prelude.Lists.{length}
use eva_driver.Memory.{slice, length-slice}
use eva_driver.Queue.{QueueHeader}
use eva_driver.Queue.Packets.{Represents}
use eva_driver.Iface.{
  Placed, DeviceQueues, place_queues, hfi_queue_init, name_queue, quiet_queue,
  set_queue_hdr_defaults, table_size, queue_header_size, queue_size, region_size,
}

-- The queue is empty and in order, its header and its memory lie in the region, the header within
-- the table and the memory behind it, and the header holds the address of the memory.
pub record IsReady (type rx_req device_addr : ℕ) (p : Placed) : Type 0 where
  pub words : List ℕ
  pub hdr : QueueHeader
  pub queue : p.queue ≡ record {
    words = some words;
    mem_size = queue_size;
    device_addr = (device_addr + p.at) % 2 ^ 32;
    hdr = some hdr;
  }
  pub empty : Represents words queue_size hdr []
  pub header_inside : p.header_at + queue_header_size ≤ table_size
  pub behind : table_size ≤ p.at
  pub inside : p.at + queue_size ≤ region_size
  pub start : hdr.start_addr ≡ p.queue.device_addr
  pub typed : hdr.type ≡ type
  pub asks : hdr.rx_req ≡ rx_req

-- One behind the other: neither the headers nor the memories overlap.
pub Apart : Placed → Placed → Type 0
Apart p q = (p.at + queue_size ≤ q.at) × (p.header_at + queue_header_size ≤ q.header_at)

fresh-Represents :
    (region : List ℕ) (offset : ℕ) (h : QueueHeader)
    → offset / 4 + queue_size / 4 ≤ length region
    → h.read_idx ≡ 0
    → h.write_idx ≡ 0
    → Represents (slice region (offset / 4) (queue_size / 4)) queue_size h []
fresh-Represents region offset h fits r w = record {
  in_order = record {
    fits = length-slice region (offset / 4) (queue_size / 4) fits;
    read_in = omega (arith, r);
    room = omega arith;
    write_in = ground (arith, r, w);
    cells = λ i lt. absurd (omega (arith, lt));
  };
  all_packets = tt;
  small = omega arith;
}

ready :
    (region : List ℕ) (device_addr type rx_req offset header_at : ℕ) (h : QueueHeader)
    → length region ≡ region_size / 4
    → table_size ≤ offset
    → offset + queue_size ≤ region_size
    → header_at + queue_header_size ≤ table_size
    → h.read_idx ≡ 0
    → h.write_idx ≡ 0
    → h.start_addr ≡ (device_addr + offset) % 2 ^ 32
    → h.type ≡ type
    → h.rx_req ≡ rx_req
    → IsReady type rx_req device_addr (record {
      at = offset;
      header_at = header_at;
      queue = record {
        words = some (slice region (offset / 4) (queue_size / 4));
        mem_size = queue_size;
        device_addr = (device_addr + offset) % 2 ^ 32;
        hdr = some h;
      };
    })
ready region device_addr type rx_req offset header_at h l behind inside header r w start typed
      asks =
    record {
      words = slice region (offset / 4) (queue_size / 4);
      hdr = h;
      queue = refl;
      empty = fresh-Represents region offset h (omega (arith, l)) r w;
      header_inside = header;
      behind = behind;
      inside = inside;
      start = start;
      typed = typed;
      asks = asks;
    }

-- The set-up of a region of the size that is allocated always succeeds: each of the three queues is
-- empty and in order, lies in the region behind the table, and its header lies in the table; no two
-- of them overlap. The numbers of the queues are in the types, and the driver asks for interrupts
-- for commands and messages but not for debug messages.
pub hfi_queue_init_lem :
    (region : List ℕ) (device_addr : ℕ) (h0 h1 h2 : QueueHeader)
    → length region ≡ region_size / 4
    → (qs : DeviceQueues) × (hfi_queue_init region device_addr h0 h1 h2 ≡ some qs)
      × IsReady 0x01010000 1 device_addr qs.cmdq
      × IsReady 0x01010001 1 device_addr qs.msgq
      × IsReady 0x01010002 0 device_addr qs.dbgq
      × Apart qs.cmdq qs.msgq
      × Apart qs.msgq qs.dbgq
unfolding hfi_queue_init place_queues name_queue quiet_queue set_queue_hdr_defaults Apart
hfi_queue_init_lem region device_addr h0 h1 h2 l = (
  _,
  refl,
  ready region device_addr 0x01010000 1 456 288 _ l (omega arith) (omega arith) (omega arith) refl
      refl refl refl refl,
  ready region device_addr 0x01010001 1 819656 344 _ l (omega arith) (omega arith) (omega arith)
      refl refl refl refl refl,
  ready region device_addr 0x01010002 0 1638856 400 _ l (omega arith) (omega arith) (omega arith)
      refl refl refl refl refl,
  (omega arith, omega arith),
  (omega arith, omega arith),
)
