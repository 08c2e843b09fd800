-- ===== src/Iface/Receive.antt =====
-- Messages of the firmware, from the queue up to `__iface_msgq_read` (msm/eva/cvp_hfi.c).
use eva_driver.Prelude.{
  ℕ, ◌*◌, ◌≤◌, ◌≡◌, refl, ap, ◌∙◌, subst, Bool, true, false, not, ◌&&◌, Option, none, some, List,
  [], ◌∷◌, ◌++◌, arith,
}
use eva_driver.Prelude.Tests.{◌==◌, if◌then◌else◌}
use eva_driver.Prelude.Lists.{length, drop}
use eva_driver.Prelude.Errno.{Rc, success, failed, enodata}
use eva_driver.Session.{is_success}
use eva_driver.Queue.{
  QueueHeader, QueueInfo, Peer, Fetched, huge_pkt_size, read_at, receive_request,
}
use eva_driver.Queue.Fifo
use eva_driver.Queue.Packets.{Represents}
use eva_driver.Queue.Pop.{Reads, read-refines-pop}
use eva_driver.Queue.There.{read_queue-at}
use eva_driver.Iface.{msgq_read, dbgq_read}

-- The message queue holds these packets, and its write index is `last`.
pub record HoldsMessages (q : QueueInfo) (last : ℕ) (packets : List (List ℕ)) : Type 0 where
  pub words : List ℕ
  pub hdr : QueueHeader
  pub words_there : q.words ≡ some words
  pub hdr_there : q.hdr ≡ some hdr
  pub held : Represents words q.mem_size hdr packets
  pub last_is : hdr.write_idx ≡ last

-- The firmware leaves the queue alone.
abbrev pub quiet : ℕ → Peer
quiet last = record { recheck = last; last = last }

-- What a read of the message queue does at a queue that holds some packets.
abbrev pub MsgqReads :
    QueueInfo → ℕ → List ℕ → Option (Rc × Bool × QueueInfo × List ℕ) → List (List ℕ) → Type 0
MsgqReads q last buffer out [] =
    (q' : QueueInfo) × (out ≡ some (failed enodata, false, q', buffer)) × HoldsMessages q' last []
MsgqReads q last buffer out (p ∷ ps) =
    (q' : QueueInfo) × (rung : Bool) × (out ≡ some (success, rung, q', p ++ drop (length p) buffer))
    × HoldsMessages q' last ps

abbrev is_set : Option ℕ → Bool
is_set none = false
is_set (some n) = not (n == 0)

msgq_read-at :
    (q : QueueInfo) (peer : Peer) (buffer words : List ℕ) (h : QueueHeader) (r : Fetched)
    → q.words ≡ some words
    → q.hdr ≡ some h
    → read_at words q.mem_size h peer buffer ≡ some r
    → msgq_read true peer buffer q
      ≡ some (
        if is_success r.rc then success else failed enodata,
        is_success r.rc && is_set r.tx_req_is_set,
        record q { hdr = some (record r.hdr { write_idx = peer.last }) },
        r.packet,
      )
unfolding msgq_read dbgq_read
msgq_read-at q peer buffer words h r e f g =
    ground (arith, e, read_queue-at q peer buffer words h r e f g)

-- From what the read does at the queue.
receive :
    (q : QueueInfo) (words : List ℕ) (h : QueueHeader) (buffer : List ℕ) (packets : List (List ℕ))
    → q.words ≡ some words
    → q.hdr ≡ some h
    → Represents words q.mem_size h packets
    → Reads words q.mem_size h h.write_idx buffer
        (read_at words q.mem_size h (quiet h.write_idx) buffer)
        (Fifo.pop packets)
    → MsgqReads q h.write_idx buffer (msgq_read true (quiet h.write_idx) buffer q) packets
unfolding Fifo.pop
receive q words h buffer [] e f v reads =
    let r : Fetched = record {
      rc = failed enodata;
      packet = buffer;
      hdr = record h { rx_req = receive_request h };
      tx_req_is_set = some 0;
    } in
    (
      _,
      msgq_read-at q (quiet h.write_idx) buffer words h r e f reads,
      record {
        words = words;
        hdr = r.hdr;
        words_there = e;
        hdr_there = refl;
        held = record { in_order = v.in_order; all_packets = v.all_packets; small = v.small };
        last_is = refl;
      },
    )
receive q words h buffer (p ∷ ps) e f v (r, reads, done, taken, held, asked, rest) = (
  record q { hdr = some (record r.hdr { write_idx = h.write_idx }) },
  is_set r.tx_req_is_set,
  msgq_read-at q (quiet h.write_idx) buffer words h r e f reads
      ∙ ap some (ground (arith, done, taken)),
  record {
    words = words;
    hdr = record r.hdr { write_idx = h.write_idx };
    words_there = e;
    hdr_there = refl;
    held = held;
    last_is = refl;
  },
)

-- A read of the message queue while the firmware leaves it alone.
pub msgq_read-refines-pop :
    (q : QueueInfo) (last : ℕ) (buffer : List ℕ) (packets : List (List ℕ))
    → HoldsMessages q last packets
    → huge_pkt_size ≤ length buffer * 4
    → MsgqReads q last buffer (msgq_read true (quiet last) buffer q) packets
msgq_read-refines-pop q last buffer packets h large =
    subst (λ n. MsgqReads q n buffer (msgq_read true (quiet n) buffer q) packets) h.last_is
      (receive q h.words h.hdr buffer packets h.words_there h.hdr_there h.held
        (read-refines-pop buffer h.held large))
