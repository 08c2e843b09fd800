-- ===== src/Iface/Send.antt =====
-- Commands of the driver, from `__iface_cmdq_write` (msm/eva/cvp_hfi.c) down to the queue.
use eva_driver.Prelude.{
  ℕ, ◌/◌, ◌≤◌, ◌≡◌, refl, sym, ap, subst, Bool, true, false, Option, none, some, List, arith,
}
use eva_driver.Prelude.Tests.{◌==◌}
use eva_driver.Prelude.Lists.{length, get_or}
use eva_driver.Prelude.Errno.{Rc, success, failed, e2big, enotempty}
use eva_driver.Queue.{QueueHeader, Written, refused, write_at}
use eva_driver.Queue.Fifo
use eva_driver.Queue.There.{write_queue-at}
use eva_driver.Queue.Packets.{IsPacket, Represents}
use eva_driver.Queue.Push.{Writes, write-refines-push}
use eva_driver.Iface.{Device, cmdq_write_relaxed, cmdq_write, note_read_offset}

-- The device's command queue holds these packets.
pub record HoldsCommands (dev : Device) (h : QueueHeader) (packets : List (List ℕ)) : Type 0 where
  pub words : List ℕ
  pub words_there : dev.cmdq.words ≡ some words
  pub hdr_there : dev.cmdq.hdr ≡ some h
  pub held : Represents words dev.cmdq.mem_size h packets

-- What a command must return and leave, given the FIFO after it, if that took the packet.
unfoldable pub Sends :
    QueueHeader → List (List ℕ) → Option (Rc × Bool × Device) → Option (List (List ℕ)) → Type 0
Sends h packets out none =
    (dev' : Device) × (out ≡ some (failed e2big, false, dev'))
    × HoldsCommands dev' (record h { tx_req = 1 }) packets
Sends h packets out (some packets') =
    (dev' : Device) × (h' : QueueHeader) × (out ≡ some (success, h.rx_req == 1, dev'))
    × HoldsCommands dev' h' packets'
    × (h'.tx_req ≡ 0)

-- The device after a write, with the interrupt noted if it was raised.
noted : Bool → Device → Device
noted true dev = note_read_offset dev
noted false dev = dev

noted-cmdq : (b : Bool) (dev : Device) → (noted b dev).cmdq ≡ dev.cmdq
unfolding noted note_read_offset
noted-cmdq true dev = ground arith
noted-cmdq false dev = refl

written_device : List ℕ → Written → Device → Device
written_device packet w dev = record dev {
  last_packet_type = get_or packet 1 0;
  cmdq = record dev.cmdq { words = some w.words; hdr = some w.hdr };
}

module _ (packet words : List ℕ) (dev : Device) (h : QueueHeader) (w : Written)
    (valid : dev.valid ≡ true) (e : dev.cmdq.words ≡ some words) (f : dev.cmdq.hdr ≡ some h)
    (g : write_at words dev.cmdq.mem_size h packet ≡ some w) where
  cmdq_write-written :
      (b : Bool)
      → w.rc ≡ success
      → w.rx_req_is_set ≡ some b
      → cmdq_write success packet dev ≡ some (success, b, noted b (written_device packet w dev))
  unfolding cmdq_write cmdq_write_relaxed noted written_device
  cmdq_write-written b r s =
      ground (arith, e, write_queue-at dev.cmdq packet words h w e f g, valid, r, s)

  cmdq_write-refused :
      w.rc ≡ failed enotempty
      → w.rx_req_is_set ≡ none
      → cmdq_write success packet dev ≡ some (failed e2big, false, written_device packet w dev)
  unfolding cmdq_write cmdq_write_relaxed written_device
  cmdq_write-refused r s =
      ground (arith, e, write_queue-at dev.cmdq packet words h w e f g, valid, r, s)

noted-HoldsCommands :
    (b : Bool) (packet : List ℕ) (w : Written) (dev : Device) (packets : List (List ℕ))
    → Represents w.words dev.cmdq.mem_size w.hdr packets
    → HoldsCommands (noted b (written_device packet w dev)) w.hdr packets
unfolding written_device
noted-HoldsCommands b packet w dev packets v =
    let q = noted-cmdq b (written_device packet w dev) in
    record {
      words = w.words;
      words_there = ap (λ q. q.words) q;
      hdr_there = ap (λ q. q.hdr) q;
      held = subst (λ m. Represents w.words m w.hdr packets) (sym (ap (λ q. q.mem_size) q)) v;
    }

-- Either way, from what the write does at the queue.
send :
    (packet : List ℕ) (dev : Device) (h : QueueHeader) (packets : List (List ℕ))
    (c : HoldsCommands dev h packets) (pushed : Option (List (List ℕ)))
    → dev.valid ≡ true
    → Writes c.words dev.cmdq.mem_size h (write_at c.words dev.cmdq.mem_size h packet) pushed
    → Sends h packets (cmdq_write success packet dev) pushed
unfolding Sends written_device noted
send packet dev h packets c none valid e =
    let w : Written = refused enotempty c.words (record h { tx_req = 1 }) in
    (
      written_device packet w dev,
      cmdq_write-refused packet c.words dev h w valid c.words_there c.hdr_there e refl refl,
      noted-HoldsCommands false packet w dev packets (same c.held),
    )
  where
    same :
        Represents c.words dev.cmdq.mem_size h packets
        → Represents c.words dev.cmdq.mem_size (record h { tx_req = 1 }) packets
    same v = record { in_order = v.in_order; all_packets = v.all_packets; small = v.small }
send packet dev h packets c (some packets') valid (w, e, done, held, wanted, rest) = (
  noted (h.rx_req == 1) (written_device packet w dev),
  w.hdr,
  cmdq_write-written packet c.words dev h w valid c.words_there c.hdr_there e (h.rx_req == 1) done
      wanted,
  noted-HoldsCommands (h.rx_req == 1) packet w dev packets' held,
  rest,
)

-- A command for a device that is in order and has power is appended to the packets of the command
-- queue, and the firmware is interrupted exactly if it asked for that; where the packet does not fit
-- the code is -E2BIG, no interrupt is raised, and the packets of the queue stay as they were.
pub cmdq_write-refines-push :
    (packet : List ℕ) (dev : Device) (h : QueueHeader) (packets : List (List ℕ))
    → dev.valid ≡ true
    → HoldsCommands dev h packets
    → IsPacket packet
    → length packet ≤ dev.cmdq.mem_size / 4
    → Sends h packets
        (cmdq_write success packet dev)
        (Fifo.push (dev.cmdq.mem_size / 4) packets packet)
cmdq_write-refines-push packet dev h packets valid c p fits =
    send packet dev h packets c (Fifo.push (dev.cmdq.mem_size / 4) packets packet) valid
      (write-refines-push packet c.held p fits)
