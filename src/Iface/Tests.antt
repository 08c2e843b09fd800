-- ===== src/Iface/Tests.antt =====
-- The device's queues, and the theorems about them, at concrete inputs.
use eva_driver.Prelude.{ℕ, ◌≡◌, refl, true, false, some, List, [], ◌∷◌, arith}
use eva_driver.Prelude.Lists.{length, replicate, length-replicate}
use eva_driver.Prelude.Errno.{failed, einval}
use eva_driver.Queue.{QueueHeader}
use eva_driver.Queue.Packets.{IsPacket}
use eva_driver.Iface.{Device, msgq_read}
use eva_driver.Iface.Send.{HoldsCommands}

abbrev old_header : QueueHeader
old_header = record {
  status = 0;
  start_addr = 7;
  type = 0;
  q_size = 0;
  pkt_size = 0;
  pkt_drop_cnt = 3;
  rx_wm = 0;
  tx_wm = 0;
  rx_req = 0;
  tx_req = 0;
  rx_irq_status = 0;
  tx_irq_status = 0;
  read_idx = 5;
  write_idx = 2;
}

abbrev header : QueueHeader
header = record old_header { type = 0x01010000; rx_req = 1; read_idx = 0; write_idx = 0 }

abbrev device : Device
device = record {
  valid = true;
  cmdq = record {
    words = some (replicate 8 0);
    mem_size = 32;
    device_addr = 4096;
    hdr = some header;
  };
  last_packet_type = 0;
  cur_read_offset = 0;
  prev_read_offset = 0;
}

abbrev command : List ℕ
command = 12 ∷ 0x10001 ∷ 5 ∷ []

-- A message is not read while the core is not in a valid state.
not_valid :
    msgq_read false (record { recheck = 0; last = 0 }) command device.cmdq
    ≡ some (failed einval, false, device.cmdq, command)
unfolding msgq_read
not_valid = refl

zeros : ℕ → List ℕ
zeros n = replicate n 0

length-zeros : (n : ℕ) → length (zeros n) ≡ n
unfolding zeros
length-zeros n = length-replicate n 0

device-HoldsCommands : HoldsCommands device header []
device-HoldsCommands = record {
  words = replicate 8 0;
  words_there = refl;
  hdr_there = refl;
  held = record {
    in_order = record {
      fits = refl;
      read_in = omega arith;
      room = omega arith;
      write_in = refl;
      cells = λ i lt. absurd (omega (arith, lt));
    };
    all_packets = tt;
    small = omega arith;
  };
}

command-IsPacket : IsPacket command
command-IsPacket = omega arith
