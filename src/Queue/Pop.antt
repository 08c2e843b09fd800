-- ===== src/Queue/Pop.antt =====
-- `__read_queue` on a queue in order, against the bounded FIFO.
use eva_driver.Prelude.{
  ℕ, ◌+◌, ◌*◌, ◌/◌, ◌^◌, ◌%◌, ◌≤◌, ◌<◌, ◌≡◌, refl, ◌∙◌, ap, true, false, ◌&&◌, Option, none, some,
  List, [], ◌∷◌, ◌++◌, arith,
}
use eva_driver.Prelude.Tests.{leb, ◌==◌, ltb-false, leb-true, ==_iff, if◌then◌else◌}
use eva_driver.Prelude.Lists.{
  length, get_or, get_elem?, set, drop, get_elem?-eq-get_or, get_or-append_left, length-append,
  concat, All,
}
use eva_driver.Prelude.Words.{shl2}
use eva_driver.Prelude.Errno.{success, failed, enodata}
use eva_driver.Queue.{
  QueueHeader, Fetched, huge_pkt_size, fetch, take_packet, read_at, receive_request,
}
use eva_driver.Queue.Fifo
use eva_driver.Queue.Holds.{Holds, wrap, shl2_words}
use eva_driver.Queue.Packets.{IsPacket, Represents}
use eva_driver.Queue.Read.{copy_out-packet, rest-Holds}

abbrev when_last : ℕ → List (List ℕ) → ℕ
when_last n [] = n
when_last n (packet ∷ packets) = 0

set-head :
    (packet behind : List ℕ)
    → 0 < length packet
    → set (packet ++ behind) 0 (get_or packet 0 0) ≡ packet ++ behind
set-head [] behind h = absurd (omega arith)
set-head (x ∷ packet) behind h = refl

-- The read of a packet that is at hand, whatever was read of the write index before.
fetch-packet :
    {words : List ℕ} {mem_size w : ℕ} (h : QueueHeader) (packet stream buffer : List ℕ)
    (write_idx : ℕ) (flag : Option ℕ)
    → Holds words (mem_size / 4) h.read_idx w (packet ++ stream)
    → mem_size ≤ 2 ^ 31
    → IsPacket packet
    → length packet ≤ length buffer
    → fetch words mem_size h write_idx w flag buffer
      ≡ some (record {
        rc = success;
        packet = packet ++ drop (length packet) buffer;
        hdr = record h {
          read_idx = wrap (mem_size / 4) (h.read_idx + length packet);
          rx_req =
              if wrap (mem_size / 4) (h.read_idx + length packet) == w
              then receive_request h
              else 0;
        };
        tx_req_is_set = some (if h.tx_req == 1 then 1 else 0);
      })
unfolding fetch take_packet
fetch-packet {words} {mem_size} {w} h packet stream buffer write_idx flag v small p large = rw (
  shl2_words h.read_idx (omega (arith, v.read_in)),
  ltb-false mem_size (h.read_idx * 4 + 4) (omega (arith, v.read_in)),
  k,
  first,
  p.sized,
  not_empty,
  sound,
  copy_out-packet words (mem_size / 4) h.read_idx w packet stream buffer v (omega arith) large,
  set-head packet (drop (length packet) buffer) p.nonempty,
)
  where
    k : h.read_idx * 4 / 4 ≡ h.read_idx
    k = omega arith

    first : get_elem? words h.read_idx ≡ some (get_or packet 0 0)
    first =
        let e : wrap (mem_size / 4) (h.read_idx + 0) ≡ h.read_idx = ground (arith, v.read_in) in
        get_elem?-eq-get_or words h.read_idx 0 (omega (arith, v.fits, v.read_in))
        ∙ ap some (
            rw e at (v.cells 0 (omega (arith, p.nonempty, length-append packet stream)))
            ∙ get_or-append_left packet stream 0 0 p.nonempty)

    not_empty : (length packet == 0) ≡ false
    not_empty = ground (arith, p.nonempty)

    sound : (leb (shl2 (length packet)) huge_pkt_size && leb h.read_idx (mem_size / 4)) ≡ true
    sound = rw (
      shl2_words (length packet) (omega (arith, p.limited)),
      leb-true (length packet * 4) huge_pkt_size p.limited,
      leb-true h.read_idx (mem_size / 4) (omega (arith, v.read_in)),
    )

-- The read index meets the write index exactly if no word is held.
empty_test :
    {words stream : List ℕ} {size r w : ℕ}
    → Holds words size r w stream
    → (r == w) ≡ (length stream == 0)
empty_test h = ground (arith, h.write_in, h.read_in, h.room)

last_test :
    (packets : List (List ℕ)) (n : ℕ)
    → All IsPacket packets
    → (if length (concat packets) == 0 then n else 0) ≡ when_last n packets
last_test [] n a = refl
last_test (packet ∷ packets) n a =
    ground (arith, a.0.nonempty, length-append packet (concat packets))

-- What a read must return and leave, given what the FIFO pops; `last` is the firmware's write index.
abbrev pub Reads :
    List ℕ
    → ℕ
    → QueueHeader
    → ℕ
    → List ℕ
    → Option Fetched
    → Option (List ℕ × List (List ℕ))
    → Type 0
Reads words mem_size h last buffer out none =
    out
    ≡ some (record {
      rc = failed enodata;
      packet = buffer;
      hdr = record h { rx_req = receive_request h };
      tx_req_is_set = some 0;
    })
Reads words mem_size h last buffer out (some (packet, packets)) =
    (f : Fetched) × (out ≡ some f)
    × (f.rc ≡ success)
    × (f.packet ≡ packet ++ drop (length packet) buffer)
    × Represents words mem_size (record f.hdr { write_idx = last }) packets
    × (f.tx_req_is_set ≡ some (if h.tx_req == 1 then 1 else 0))
    × (f.hdr.rx_req ≡ when_last (receive_request h) packets)

module _ {words : List ℕ} {mem_size : ℕ} {packets : List (List ℕ)} (h : QueueHeader)
    (packet buffer : List ℕ) (large : huge_pkt_size ≤ length buffer * 4) where
  fetch-pops :
      (last write_idx : ℕ) (flag : Option ℕ) (rx : ℕ)
      → Represents words mem_size (record h { write_idx = last }) (packet ∷ packets)
      → Reads words mem_size h last buffer
          (fetch words mem_size (record h { rx_req = rx }) write_idx last flag buffer)
          (some (packet, packets))
  unfolding receive_request
  fetch-pops last write_idx flag rx v =
      rw
        (fetch-packet (record h { rx_req = rx }) packet (concat packets) buffer write_idx flag
          v.in_order v.small v.all_packets.0 fits)
        (
          _,
          refl,
          refl,
          refl,
          record { in_order = rest; all_packets = v.all_packets.1; small = v.small },
          refl,
          rw (empty_test rest) (last_test packets (h.type % 2) v.all_packets.1),
        )
    where
      fits : length packet ≤ length buffer
      fits = omega (arith, v.all_packets.0.limited)

      rest :
          Holds words
            (mem_size / 4)
            (wrap (mem_size / 4) (h.read_idx + length packet))
            last
            (concat packets)
      rest =
          rest-Holds words (mem_size / 4) h.read_idx last packet (concat packets) buffer v.in_order
            (omega (arith, v.small)) fits

-- A read of a queue in order, while the firmware leaves it alone, does what a pop of the FIFO does:
-- the oldest packet is in the buffer, and the firmware is asked for an interrupt exactly if no
-- packet is left behind it and the queue is the message queue. On an empty queue the code is
-- -ENODATA and the buffer is as it was.
pub read-refines-pop :
    {words : List ℕ} {mem_size : ℕ} {h : QueueHeader} {packets : List (List ℕ)} (buffer : List ℕ)
    → Represents words mem_size h packets
    → huge_pkt_size ≤ length buffer * 4
    → Reads words mem_size h h.write_idx buffer
        (read_at words mem_size h (record { recheck = h.write_idx; last = h.write_idx }) buffer)
        (Fifo.pop packets)
unfolding read_at Fifo.pop
read-refines-pop {h} {packets = []} buffer v large = rw (empty_test v.in_order) (ground arith)
read-refines-pop {words} {mem_size} {h} {packets = packet ∷ packets} buffer v large =
    rw ne (fetch-pops h packet buffer large h.write_idx h.write_idx none h.rx_req v)
  where
    ne : (h.read_idx == h.write_idx) ≡ false
    ne =
        empty_test v.in_order
        ∙ ground (arith, v.all_packets.0.nonempty, length-append packet (concat packets))

-- No packet is missed: if the queue looks empty and the firmware publishes packets before the
-- second look behind the barrier, that same read returns the oldest of them.
pub read_finds_late_packet :
    {words : List ℕ} {mem_size : ℕ} {h : QueueHeader} {packets : List (List ℕ)}
    (packet buffer : List ℕ) (late : ℕ)
    → Represents words mem_size (record h { write_idx = late }) (packet ∷ packets)
    → h.read_idx ≡ h.write_idx
    → huge_pkt_size ≤ length buffer * 4
    → Reads words mem_size h late buffer
        (read_at words mem_size h (record { recheck = late; last = late }) buffer)
        (some (packet, packets))
unfolding read_at
read_finds_late_packet {words} {mem_size} {h} {packets} packet buffer late v e large =
    rw (same, changed) (fetch-pops h packet buffer large late h.write_idx (some 0) 0 v)
  where
    same : (h.read_idx == h.write_idx) ≡ true
    same = (==_iff h.read_idx h.write_idx).1 e

    changed : (h.write_idx == late) ≡ false
    changed = rw (← e) (
        empty_test v.in_order
        ∙ ground (arith, v.all_packets.0.nonempty, length-append packet (concat packets)))
