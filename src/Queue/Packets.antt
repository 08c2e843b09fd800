-- ===== src/Queue/Packets.antt =====
-- The packets in an HFI queue, oldest first.
use eva_driver.Prelude.{ℕ, ◌*◌, ◌/◌, ◌^◌, ◌≤◌, ◌<◌, ◌≡◌, List}
use eva_driver.Prelude.Lists.{length, get_or, All, concat}
use eva_driver.Queue.{QueueHeader, huge_pkt_size}
use eva_driver.Queue.Holds.{Holds}

-- A packet's first word is its size in bytes, and it is no larger than what a reader takes.
pub record IsPacket (packet : List ℕ) : Type 0 where
  pub sized : get_or packet 0 0 / 4 ≡ length packet
  pub nonempty : 0 < length packet
  pub limited : length packet * 4 ≤ huge_pkt_size

pub record Represents (words : List ℕ) (mem_size : ℕ) (h : QueueHeader) (packets : List (List ℕ))
    : Type 0 where
  pub in_order : Holds words (mem_size / 4) h.read_idx h.write_idx (concat packets)
  pub all_packets : All IsPacket packets
  pub small : mem_size ≤ 2 ^ 31
