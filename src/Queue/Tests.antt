-- ===== src/Queue/Tests.antt =====
-- The HFI queue's operations and theorems at concrete inputs.
use eva_driver.Prelude.{
  ℕ, zero, suc, ◌+◌, ◌-◌, ◌^◌, ◌<◌, ◌≡◌, ◌≢◌, refl, none, List, [], ◌∷◌, arith,
}
use eva_driver.Prelude.Lists.{get_or, concat, replicate, All}
use eva_driver.Prelude.Words.{u32_mod}
use eva_driver.Queue.{QueueHeader, write_at, read_at}
use eva_driver.Queue.Fifo
use eva_driver.Queue.Holds.{wrap}
use eva_driver.Queue.Packets.{IsPacket, Represents}
use eva_driver.Queue.Push.{Writes, write-refines-push}
use eva_driver.Queue.Pop.{Reads, read-refines-pop}
use eva_driver.Queue.Bounds.{read_at-inside}
use eva_driver.Queue.Escapes.{write_at-inside}

-- A message queue of eight words that holds a packet of two words, and one of three round the end.
abbrev header : QueueHeader
header = record {
  status = 1;
  start_addr = 0;
  type = 1;
  q_size = 8;
  pkt_size = 0;
  pkt_drop_cnt = 0;
  rx_wm = 1;
  tx_wm = 1;
  rx_req = 1;
  tx_req = 0;
  rx_irq_status = 0;
  tx_irq_status = 0;
  read_idx = 5;
  write_idx = 2;
}

abbrev memory : List ℕ
memory = 1 ∷ 2 ∷ 0 ∷ 0 ∷ 0 ∷ 8 ∷ 41 ∷ 12 ∷ []

abbrev held : List (List ℕ)
held = (8 ∷ 41 ∷ []) ∷ (12 ∷ 1 ∷ 2 ∷ []) ∷ []

abbrev pkt : List ℕ
pkt = 8 ∷ 9 ∷ []

abbrev buffer : List ℕ
buffer = replicate 3072 0

held-cells : (i : ℕ) → i < 5 → get_or memory (wrap 8 (5 + i)) 0 ≡ get_or (concat held) i 0
held-cells zero h = refl
held-cells (suc zero) h = refl
held-cells (suc (suc zero)) h = refl
held-cells (suc (suc (suc zero))) h = refl
held-cells (suc (suc (suc (suc zero)))) h = refl
held-cells (suc (suc (suc (suc (suc i))))) h = absurd (omega arith)

held-Represents : Represents memory 32 header held
held-Represents = record {
  in_order = record {
    fits = refl;
    read_in = omega arith;
    room = omega arith;
    write_in = refl;
    cells = held-cells;
  };
  all_packets = omega arith;
  small = omega arith;
}

pkt-IsPacket : IsPacket pkt
pkt-IsPacket = omega arith

write-refines-push_example :
    Writes memory 32 header (write_at memory 32 header pkt) (Fifo.push 8 held pkt)
write-refines-push_example = write-refines-push pkt held-Represents pkt-IsPacket (omega arith)

read-refines-pop_example :
    Reads memory 32 header 2 buffer
      (read_at memory 32 header (record { recheck = 2; last = 2 }) buffer)
      (Fifo.pop held)
read-refines-pop_example = read-refines-pop buffer held-Represents (omega arith)

zeros-u32 : (n : ℕ) → All (λ x. x < u32_mod) (replicate n 0)
zeros-u32 zero = tt
zeros-u32 (suc n) = (omega arith, zeros-u32 n)

-- A read index that points far outside.
read_at-inside_example :
    read_at buffer 12288
      (record header { read_idx = 2 ^ 31 })
      (record { recheck = 7; last = 2 ^ 32 - 1 })
      buffer
    ≢ none
read_at-inside_example =
    read_at-inside buffer 12288 buffer (omega arith) (omega arith) (omega arith) (omega arith)
      (zeros-u32 3072) (record header { read_idx = 2 ^ 31 })
      (record { recheck = 7; last = 2 ^ 32 - 1 }) (omega arith)

write_at-inside_example : write_at memory 32 (record header { write_idx = 2 ^ 30 - 1 }) pkt ≢ none
write_at-inside_example =
    write_at-inside memory 32 (record header { write_idx = 2 ^ 30 - 1 }) pkt refl (omega arith)
      (omega arith) (omega arith)
