-- ===== src/Packets/Tests.antt =====
-- The packets at work.
use eva_driver.Prelude.{ℕ, ◌≡◌, ◌⊎◌, ◌↔◌, refl, true, false, some, List, [], ◌∷◌, ◌+◌, arith}
use eva_driver.Prelude.Lists.{replicate, length-replicate}
use eva_driver.Prelude.Errno.{success, failed, einval, enotempty}
use eva_driver.Queue.{QueueHeader}
use eva_driver.Queue.Fifo
use eva_driver.Iface.{Device}
use eva_driver.Iface.Send.{HoldsCommands}
use eva_driver.Packets.Session.{PacketInst}
use eva_driver.Packets.Resource.{ResourceHdr, SyscacheInfo}
use eva_driver.Packets.Send.{core_set_resource}
use eva_driver.Packets.Layout.{Command, set_buffers, Fits, layout}
use eva_driver.Packets.Sent.{issue, Answers, refusal, issue-Answers}
use eva_driver.Packets.Subcaches.{Carries, core_set_resource-Answers}
use eva_driver.Messages.{max_pkt_idx}
use eva_driver.Packets.Index.{
  HfiDef, cmd_session_start, msg_session_start, check_packet, outside, get_pkt_name_from_type,
  get_pkt_index_from_type, known_index,
}
use eva_driver.Packets.Accepts.{IsAccepted, check_packet_lem, get_pkt_name_from_type-outside}

abbrev header : QueueHeader
header = record {
  status = 1;
  start_addr = 4096;
  type = 0;
  q_size = 32;
  pkt_size = 0;
  pkt_drop_cnt = 0;
  rx_wm = 1;
  tx_wm = 1;
  rx_req = 1;
  tx_req = 0;
  rx_irq_status = 0;
  tx_irq_status = 0;
  read_idx = 0;
  write_idx = 0;
}

abbrev device : Device
device = record {
  valid = true;
  cmdq = record {
    words = some (replicate 32 0);
    mem_size = 128;
    device_addr = 4096;
    hdr = some header;
  };
  last_packet_type = 0;
  cur_read_offset = 0;
  prev_read_offset = 0;
}

device-HoldsCommands : HoldsCommands device header []
device-HoldsCommands = record {
  words = replicate 32 0;
  words_there = refl;
  hdr_there = refl;
  held = record {
    in_order = record {
      fits = refl;
      read_in = omega arith;
      room = omega arith;
      write_in = refl;
      cells = λ i lt. absurd (omega (arith, lt));
    };
    all_packets = tt;
    small = omega arith;
  };
}

abbrev inst : PacketInst
inst = record { sess_id = 7; type = 1; kernel_mask = 3; priority = 2; is_secure = 0; dsp_mask = 0 }

-- The packet on the stack holds anything.
abbrev buffers_set : Command
buffers_set = set_buffers 9 4096 512 inst (replicate 21 5)

issue-Answers_example :
    Answers
      (failed enotempty)
      header
      []
      (issue buffers_set device)
      (Fifo.push 32 [] (layout buffers_set))
unfolding Fits layout refusal
issue-Answers_example =
    issue-Answers buffers_set device header []
      (refl, λ e. absurd (omega (arith, e)), λ e. absurd (omega (arith, e))) refl
      device-HoldsCommands (omega arith)

abbrev caches : SyscacheInfo
caches = record { num_entries = 2; entries = (0, 16) ∷ (1, 17) ∷ [] }

abbrev cache_hdr : ResourceHdr
cache_hdr = record { resource_id = 1; resource_handle = 300 }

core_set_resource-Answers_example :
    (packet : List ℕ) × Carries 300 caches packet
    × Answers
        (failed enotempty)
        header
        []
        (core_set_resource (λ p. p) true cache_hdr caches success device)
        (Fifo.push 32 [] packet)
core_set_resource-Answers_example =
    core_set_resource-Answers (λ p. p) cache_hdr caches device header [] refl (omega arith)
      (omega arith) (omega arith) refl device-HoldsCommands (omega arith)

abbrev plain : HfiDef
plain = record { size = 1; type = 0x4011000; config_pkt = false; force_kernel_fence = false }

abbrev table : List HfiDef
table = replicate max_pkt_idx plain

check_packet_lem_example :
    ((check_packet 1 table inst (12 ∷ 0x4011000 ∷ 7 ∷ []) ≡ some success)
      × IsAccepted 1 table inst 12 0x4011000 7)
    ⊎ ((check_packet 1 table inst (12 ∷ 0x4011000 ∷ 7 ∷ []) ≡ some (failed einval))
        × ¬ IsAccepted 1 table inst 12 0x4011000 7)
check_packet_lem_example =
    check_packet_lem 1 table inst 12 0x4011000 7 [] (length-replicate max_pkt_idx plain)
      (omega arith)

get_pkt_name_from_type-outside_example :
    (get_pkt_name_from_type 1 table table 0x4011200 ≡ outside) ↔ (
      (◌≡◌ {A = ℕ} 1 1)
      × ((◌≡◌ {A = ℕ} 0x4011200 (cmd_session_start + max_pkt_idx))
          ⊎ (◌≡◌ {A = ℕ} 0x4011200 (msg_session_start + max_pkt_idx))))
get_pkt_name_from_type-outside_example =
    get_pkt_name_from_type-outside 1 0x4011200 table table (length-replicate max_pkt_idx plain)
      (length-replicate max_pkt_idx plain)

-- A packet of a known type is accepted, one of another session is not.
sent_packet : check_packet 1 table inst (12 ∷ 0x4011000 ∷ 7 ∷ []) ≡ some success
unfolding check_packet get_pkt_index_from_type known_index
sent_packet = refl

foreign_packet : check_packet 1 table inst (12 ∷ 0x4011000 ∷ 8 ∷ []) ≡ some (failed einval)
unfolding check_packet get_pkt_index_from_type known_index
foreign_packet = refl
