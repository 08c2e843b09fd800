-- ===== src/Queue.antt =====
-- The HFI queues that the driver shares with the firmware: `__write_queue` and `__read_queue` of
-- msm/eva/cvp_hfi.c over the headers of msm/eva/cvp_core_hfi.h. Memory barriers, locks, traces and
-- log lines are left out. What the firmware does meanwhile is an argument of the reader.
pub mod Holds
mod Read
pub mod Fifo
mod Bounds
mod Escapes
pub mod Pop
pub mod Push
pub mod Packets
mod Write
pub mod There
mod Tests
use eva_driver.Prelude.{ℕ, ◌+◌, ◌-◌, ◌/◌, ◌%◌, Bool, ◌&&◌, ◌||◌, Option, none, some, List}
use eva_driver.Prelude.Tests.{ltb, leb, ◌==◌, if◌then◌else◌}
use eva_driver.Prelude.Lists.{get_elem?, get_or, set}
use eva_driver.Prelude.Words.{add32, sub32, shl2}
use eva_driver.Prelude.Errno.{
  Errno, Rc, success, failed, einval, enoent, enodata, enotempty, enomem,
}
use eva_driver.Memory.{memcpy}

-- `struct cvp_hfi_queue_header`: every field is a `u32`.
pub record QueueHeader : Type 0 where
  pub status : ℕ
  pub start_addr : ℕ
  pub type : ℕ
  pub q_size : ℕ
  pub pkt_size : ℕ
  pub pkt_drop_cnt : ℕ
  pub rx_wm : ℕ
  pub tx_wm : ℕ
  pub rx_req : ℕ
  pub tx_req : ℕ
  pub rx_irq_status : ℕ
  pub tx_irq_status : ℕ
  pub read_idx : ℕ
  pub write_idx : ℕ

-- `struct cvp_iface_q_info`. `none` is a null pointer; the words are those that
-- `q_array.align_virtual_addr` points to, and `mem_size` counts bytes.
pub record QueueInfo : Type 0 where
  pub words : Option (List ℕ)
  pub mem_size : ℕ
  pub device_addr : ℕ
  pub hdr : Option QueueHeader

-- `struct cvp_mem_addr`'s limit on a packet that is read, `CVP_IFACEQ_VAR_HUGE_PKT_SIZE`.
abbrev pub huge_pkt_size : ℕ
huge_pkt_size = 12288

-- What a write leaves: the code returned, the memory and header, and what was stored through
-- `rx_req_is_set`, if it was.
pub record Written : Type 0 where
  pub rc : Rc
  pub words : List ℕ
  pub hdr : QueueHeader
  pub rx_req_is_set : Option Bool

-- What a read leaves: also the packet buffer, and what was stored through `pb_tx_req_is_set`.
pub record Fetched : Type 0 where
  pub rc : Rc
  pub packet : List ℕ
  pub hdr : QueueHeader
  pub tx_req_is_set : Option ℕ

infixl 5 ◌>>=◌
abbrev pub ◌>>=◌ : {A B : Type 0} → Option A → (A → Option B) → Option B
none >>= f = none
some a >>= f = f a

-- The writer's copy: in one piece, or round the end. The result is the new write index and memory.
pub copy_in : List ℕ → ℕ → List ℕ → ℕ → ℕ → Option (ℕ × List ℕ)
copy_in words size packet write_idx n =
    let new_write_idx = add32 write_idx n in
    if ltb new_write_idx size
    then (do words' ← memcpy words (shl2 write_idx) packet 0 (shl2 n); some (new_write_idx, words'))
    else (let over = sub32 new_write_idx size in
        do
          words' ← memcpy words (shl2 write_idx) packet 0 (shl2 (sub32 n over))
          words'' ← memcpy words' 0 packet (shl2 (sub32 n over)) (shl2 over)
          some (over, words''))

-- The words free for a packet, as the writer counts them.
pub empty_space : QueueHeader → ℕ → ℕ
empty_space h size =
    if leb h.read_idx h.write_idx
    then sub32 size (h.write_idx - h.read_idx)
    else h.read_idx - h.write_idx

-- A write that stops with a code: nothing is copied.
abbrev pub refused : Errno → List ℕ → QueueHeader → Written
refused e words h = record { rc = failed e; words = words; hdr = h; rx_req_is_set = none }

-- `__write_queue` behind its checks for null pointers. `none` is an access outside the queue or
-- the packet. The packet's first word is its size in bytes.
pub write_at : List ℕ → ℕ → QueueHeader → List ℕ → Option Written
write_at words mem_size h packet =
    let size = mem_size / 4 in
    let n = get_or packet 0 0 / 4 in
    if n == 0 || ltb size n
    then some (refused enodata words h)
    else if leb (empty_space h size) n
    then some (refused enotempty words (record h { tx_req = 1 }))
    else if ltb mem_size (shl2 h.write_idx)
    then some (refused enodata words (record h { tx_req = 0 }))
    else do
      (new_write_idx, words') ← copy_in words size packet h.write_idx n
      written new_write_idx words'
  where
    written : ℕ → List ℕ → Option Written
    written new_write_idx words' = some (record {
      rc = success;
      words = words';
      hdr = record h { tx_req = 0; write_idx = new_write_idx };
      rx_req_is_set = some (h.rx_req == 1);
    })

-- `__write_queue`.
pub write_queue : Option QueueInfo → Option (List ℕ) → Option (Rc × Option QueueInfo × Option Bool)
write_queue none packet = some (failed einval, none, none)
write_queue (some q) none = some (failed einval, some q, none)
write_queue (some q) (some packet) = elim q.words [
  | none ↦ some (failed einval, some q, none)
  | some words ↦ elim q.hdr [
    | none ↦ some (failed enoent, some q, none)
    | some h ↦ elim (write_at words q.mem_size h packet) [
      | none ↦ none
      | some w ↦
          some (w.rc, some (record q { words = some w.words; hdr = some w.hdr }), w.rx_req_is_set)
    ]
  ]
]

-- What the firmware has put in `qhdr_write_idx` by the two later times that a read looks at it:
-- behind the barrier of the empty case, and when the new read index is compared with it.
pub record Peer : Type 0 where
  pub recheck : ℕ
  pub last : ℕ

-- Debug queues never ask for an interrupt: `qhdr_type & HFI_Q_ID_CTRL_TO_HOST_MSG_Q`.
pub receive_request : QueueHeader → ℕ
receive_request h = h.type % 2

-- The reader's copy into the packet buffer, in one piece or round the end.
pub copy_out : List ℕ → ℕ → List ℕ → ℕ → ℕ → Option (ℕ × List ℕ)
copy_out words size buffer read_idx n =
    let new_read_idx = add32 read_idx n in
    if ltb new_read_idx size
    then (do packet ← memcpy buffer 0 words (shl2 read_idx) (shl2 n); some (new_read_idx, packet))
    else (let over = sub32 new_read_idx size in
        do
          front ← memcpy buffer 0 words (shl2 read_idx) (shl2 (sub32 n over))
          packet ← memcpy front (shl2 (sub32 n over)) words 0 (shl2 over)
          some (over, packet))

-- What a read that reached the packet leaves: the read index moved, and the next interrupt asked for.
moved : QueueHeader → ℕ → Rc → ℕ → List ℕ → Fetched
moved h last rc new_read_idx packet = record {
  rc = rc;
  packet = packet;
  hdr = record h {
    read_idx = new_read_idx;
    rx_req = if new_read_idx == last then receive_request h else 0;
  };
  tx_req_is_set = some (if h.tx_req == 1 then 1 else 0);
}

-- The read of a packet whose size word is `bytes`. A bad packet drops all that was written up to
-- `write_idx`.
pub take_packet : List ℕ → ℕ → QueueHeader → ℕ → ℕ → List ℕ → ℕ → Option Fetched
unfolding moved
take_packet words mem_size h write_idx last buffer bytes =
    if leb (shl2 (bytes / 4)) huge_pkt_size && leb h.read_idx (mem_size / 4)
    then (do
      (new_read_idx, packet) ← copy_out words (mem_size / 4) buffer h.read_idx (bytes / 4)
      some (moved h last success new_read_idx (set packet 0 bytes)))
    else some (moved h last (failed enodata) write_idx buffer)

-- The read from the index check on; `h` is the header as the empty case left it, `write_idx` the
-- write index that was read first, `flag` what was stored through `pb_tx_req_is_set` so far.
pub fetch : List ℕ → ℕ → QueueHeader → ℕ → ℕ → Option ℕ → List ℕ → Option Fetched
fetch words mem_size h write_idx last flag buffer =
    if ltb mem_size (shl2 h.read_idx + 4)
    then some stopped
    else elim (get_elem? words (shl2 h.read_idx / 4)) [
      | none ↦ none
      | some bytes ↦
          if bytes / 4 == 0
          then some stopped
          else take_packet words mem_size h write_idx last buffer bytes
    ]
  where
    stopped : Fetched
    stopped = record { rc = failed enodata; packet = buffer; hdr = h; tx_req_is_set = flag }

-- `__read_queue` behind its checks for null pointers. `none` is an access outside the queue or
-- the packet buffer.
pub read_at : List ℕ → ℕ → QueueHeader → Peer → List ℕ → Option Fetched
read_at words mem_size h peer buffer =
    if h.read_idx == h.write_idx
    then (if h.write_idx == peer.recheck
        then some (record {
          rc = failed enodata;
          packet = buffer;
          hdr = record h { rx_req = receive_request h };
          tx_req_is_set = some 0;
        })
        else fetch words mem_size (record h { rx_req = 0 }) h.write_idx peer.last (some 0) buffer)
    else fetch words mem_size h h.write_idx peer.last none buffer

-- `__read_queue`. The firmware's last write index stays in the header.
pub read_queue :
    Option QueueInfo
    → Peer
    → Option (List ℕ)
    → Option (Rc × Option QueueInfo × Option (List ℕ) × Option ℕ)
read_queue none peer buffer = some (failed einval, none, buffer, none)
read_queue (some q) peer none = some (failed einval, some q, none, none)
read_queue (some q) peer (some buffer) = elim q.words [
  | none ↦ some (failed einval, some q, some buffer, none)
  | some words ↦ elim q.hdr [
    | none ↦ some (failed enomem, some q, some buffer, none)
    | some h ↦ elim (read_at words q.mem_size h peer buffer) [
      | none ↦ none
      | some r ↦ some (
        r.rc,
        some (record q { hdr = some (record r.hdr { write_idx = peer.last }) }),
        some r.packet,
        r.tx_req_is_set,
      )
    ]
  ]
]
