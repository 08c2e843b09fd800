-- ===== src/Queue/Push.antt =====
-- `__write_queue` on a queue in order, against the bounded FIFO.
use eva_driver.Prelude.{
  ℕ, ◌+◌, ◌*◌, ◌/◌, ◌^◌, ◌≤◌, ◌≡◌, refl, false, ◌||◌, Option, none, some, List, [], ◌∷◌, arith,
  dec_lt,
}
use eva_driver.Prelude.Tests.{ltb, ◌==◌, ltb-true, ltb-false, leb-false}
use eva_driver.Prelude.Lists.{length, concat, All-append, concat-snoc}
use eva_driver.Prelude.Words.{shl2}
use eva_driver.Prelude.Errno.{success, enotempty}
use eva_driver.Queue.{QueueHeader, Written, refused, write_at, empty_space}
use eva_driver.Queue.Fifo
use eva_driver.Queue.Holds.{Holds, shl2_words, write-lt-size}
use eva_driver.Queue.Packets.{IsPacket, Represents}
use eva_driver.Queue.Write.{copy_in-Holds}

-- The free words are those that the stream leaves.
empty_space-Holds :
    {words stream : List ℕ} {size : ℕ} (h : QueueHeader)
    → Holds words size h.read_idx h.write_idx stream
    → size ≤ 2 ^ 29
    → empty_space h size + length stream ≡ size
unfolding empty_space
empty_space-Holds h v small = ground (arith, v.write_in, v.read_in, v.room)

-- What a write must return and leave, given the FIFO after it, if it took the packet.
abbrev pub Writes : List ℕ → ℕ → QueueHeader → Option Written → Option (List (List ℕ)) → Type 0
Writes words mem_size h out none = out ≡ some (refused enotempty words (record h { tx_req = 1 }))
Writes words mem_size h out (some packets) =
    (w : Written) × (out ≡ some w)
    × (w.rc ≡ success)
    × Represents w.words mem_size w.hdr packets
    × (w.rx_req_is_set ≡ some (h.rx_req == 1))
    × (w.hdr.tx_req ≡ 0)

-- A write to a queue in order does what a push to the FIFO does: a packet that leaves a word free
-- is taken, and the writer learns whether the firmware asked for an interrupt; otherwise the code is
-- -ENOTEMPTY, and only the request to be told of free room is left in the header.
pub write-refines-push :
    {words : List ℕ} {mem_size : ℕ} {h : QueueHeader} {packets : List (List ℕ)} (packet : List ℕ)
    → Represents words mem_size h packets
    → IsPacket packet
    → length packet ≤ mem_size / 4
    → Writes words mem_size h
        (write_at words mem_size h packet)
        (Fifo.push (mem_size / 4) packets packet)
unfolding write_at Fifo.push
write-refines-push {words} {mem_size} {h} {packets} packet v p fits =
    elim (dec_lt (length (concat packets) + length packet) (mem_size / 4)) [
      | yes room ↦
          let (words', copied, held) =
            copy_in-Holds words (mem_size / 4) h.read_idx h.write_idx (concat packets) packet
              v.in_order (omega (arith, v.small)) room in
          rw
            (
              ltb-true _ _ room,
              p.sized,
              tests,
              leb-false (empty_space h (mem_size / 4)) (length packet) (omega (arith, space)),
              inside,
              copied,
            )
            (
              _,
              refl,
              refl,
              record {
                in_order = rw (concat-snoc packets packet) held;
                all_packets = All-append IsPacket packets (packet ∷ []) v.all_packets (p, tt);
                small = v.small;
              },
              refl,
              refl,
            )
      | no full ↦
          rw
            (
              ltb-false (length (concat packets) + length packet) (mem_size / 4) (omega arith),
              p.sized,
            )
            (ground (arith, space, p.nonempty))
    ]
  where
    space : empty_space h (mem_size / 4) + length (concat packets) ≡ mem_size / 4
    space = empty_space-Holds h v.in_order (omega (arith, v.small))

    tests : (length packet == 0 || ltb (mem_size / 4) (length packet)) ≡ false
    tests = ground (arith, p.nonempty)

    inside : ltb mem_size (shl2 h.write_idx) ≡ false
    inside =
        rw (shl2_words h.write_idx (omega (arith, write-lt-size v.in_order, v.small)))
          (ltb-false mem_size (h.write_idx * 4) (omega (arith, write-lt-size v.in_order)))
