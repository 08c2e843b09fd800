-- ===== src/Queue/There.antt =====
-- `__write_queue` and `__read_queue` (msm/eva/cvp_hfi.c) where no pointer is null.
use eva_driver.Prelude.{ℕ, ◌≡◌, some, List, arith}
use eva_driver.Queue.{
  QueueHeader, QueueInfo, Written, Fetched, Peer, write_at, write_queue, read_at, read_queue,
}

pub write_queue-at :
    (q : QueueInfo) (packet words : List ℕ) (h : QueueHeader) (w : Written)
    → q.words ≡ some words
    → q.hdr ≡ some h
    → write_at words q.mem_size h packet ≡ some w
    → write_queue (some q) (some packet)
      ≡ some (w.rc, some (record q { words = some w.words; hdr = some w.hdr }), w.rx_req_is_set)
unfolding write_queue
write_queue-at q packet words h w e f g = ground (arith, e, f, g)

pub read_queue-at :
    (q : QueueInfo) (peer : Peer) (buffer words : List ℕ) (h : QueueHeader) (r : Fetched)
    → q.words ≡ some words
    → q.hdr ≡ some h
    → read_at words q.mem_size h peer buffer ≡ some r
    → read_queue (some q) peer (some buffer)
      ≡ some (
        r.rc,
        some (record q { hdr = some (record r.hdr { write_idx = peer.last }) }),
        some r.packet,
        r.tx_req_is_set,
      )
unfolding read_queue
read_queue-at q peer buffer words h r e f g = ground (arith, e, f, g)
